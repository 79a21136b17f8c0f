-- ===== src/Examples/Runs.antt =====
-- Runs of `src/sync/kosync_sync.c`.
use crossnook.Base.{
  scan_end, ◌≡◌, refl, true, false, some, [], ◌∷◌, ◌==◌, if◌then◌else◌, replicate, codes,
}
use crossnook.Md5.{
  initial, init, update, final, transform, length_bytes, padding_length, digest_of, write_u32le,
}
use crossnook.Sync.Types.{TimeResult, DnsResult, Transport, KosyncResult, ProgressResult}
use crossnook.Sync.Upload.{progress_set, replace, document_id_ok, progress_init}
use crossnook.KoreaderIdentity.{
  koreader_binary, check_path, open_binary, finish_binary, sample_all, document_id_text,
  digest_to_text, document_id_init, hex_text,
}
use crossnook.Utf8.Header.{bounded_count, header_text_ok}
use crossnook.Utf8.{scan_fuel}
use crossnook.Utf8.Kosync.{sequence, lead, tail_bytes, is_refused, utf8_valid}
use crossnook.Sync.Once.{
  TimePolicy, Config, Collaborators, finish, after, map_kosync, result_init, uploaded,
}
use crossnook.Sync.Run.{
  put, set_then_put, upload_local, decide, got, get, connect, resolved, resolve, timed, take_time,
  loaded, load_local, identified, identify, start, pointers, sync_once, establishes,
}
use crossnook.Sync.Run.Reported.{IsReported, sync_once-IsReported, put_ok}

-- A book with a local position at 12.5 percent that the server does not know.
abbrev unknown_book : Collaborators
unknown_book = record {
  file = record {
    opens = λ path. true;
    seeks = λ path offset. true;
    reads = λ path offset. if offset == 0 then 65 ∷ 66 ∷ 67 ∷ [] else [];
    errs = λ path offset. false;
    closes = λ path. true;
  };
  stack = record { state = initial; byte_count = 0; buffer = replicate 64 0; buffer_length = 0 };
  malloc = λ size. true;
  from_path = λ path. some (codes "token");
  load = λ identity.
      (ProgressResult.ok, record { location = codes "/body/p[3]"; progress_10000 = some 1250 });
  save = λ identity location progress. ProgressResult.io_error;
  sync_time = TimeResult.ok;
  resolve = λ host. (DnsResult.ok, 0x7f000001 ∷ []);
  set_tls = λ address. KosyncResult.ok;
  get_progress = λ id. record {
    result = KosyncResult.not_found;
    progress = progress_init;
    http_status = 404;
    transport = Transport.ok;
  };
  put_progress = λ upload. record {
    result = KosyncResult.ok;
    timestamp = 1789908200;
    http_status = 200;
    transport = Transport.ok;
  };
}

abbrev config : Config
config = record {
  document_path = some (codes "/b");
  has_progress_store = true;
  time_policy = TimePolicy.establish;
  has_time = true;
  has_dns = true;
  tls_get_time = some false;
  client = some (record { host = codes "sync.example"; use_tls = true });
  device = some (codes "nook");
  device_id = some (codes "0123");
}

sync_once-IsReported_example : IsReported (sync_once unknown_book (some config))
sync_once-IsReported_example = sync_once-IsReported unknown_book (some config)

-- The run uploads the local position.
sync_once_puts : put_ok (sync_once unknown_book (some config)).1 ≡ true
unfolding scan_end put_ok put set_then_put upload_local decide got get connect resolved resolve
    timed take_time loaded load_local identified identify start pointers sync_once establishes
    finish after map_kosync result_init uploaded progress_set replace document_id_ok progress_init
    koreader_binary check_path open_binary finish_binary sample_all document_id_text digest_to_text
    document_id_init hex_text init update final transform length_bytes padding_length digest_of
    write_u32le bounded_count header_text_ok sequence lead tail_bytes is_refused utf8_valid
    scan_fuel
sync_once_puts = refl
