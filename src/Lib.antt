-- ===== src/Lib.antt =====
-- CrossNook is a reader for the NOOK Simple Touch that keeps the position in a book and
-- synchronises it with a KOSync server. This library models the parts of `src/` that decide what is
-- sent and what a run reports:
--
-- * `Md5` is `src/book/md5.c`: the streaming digest. The context is a record; `init`, `update` and
--   `final` are `cn_md5_init`, `cn_md5_update` and `cn_md5_final`, and `transform` is the
--   compression. Words are numbers with their wrap-around written out. `Md5.Absorb` is the machine
--   that reads one byte at a time, and `Md5.Fill`, `Md5.Stream` and `Md5.Digest` relate the two.
-- * `KoreaderIdentity` is `src/book/koreader_identity.c`: the identity under which a book is known
--   to the server, from samples of the file (`koreader_binary`) or from its name
--   (`koreader_filename`). What stdio does is the parameter `SampledFile`, and what the stack holds
--   before the context is initialised is a parameter too.
-- * `Utf8` holds the UTF-8 loops: `Utf8.Kosync`, `Utf8.Encode` and `Utf8.Header` are `utf8_valid`,
--   `append_codepoint` and `header_text_ok` of `src/sync/kosync.c`, `Utf8.Progress` is `utf8_valid`
--   of `src/progress/progress_store.c`, `Utf8.DeviceName` is `utf8_device_name_valid` of
--   `src/settings/settings_store.c`, and `Utf8.DeviceId` is `cn_sync_valid_device_id_internal` of
--   `src/sync/sync_controller.c`. `Utf8.Reference` decodes one value by arithmetic.
-- * `Progress.Record` is `src/progress/progress_store.c`: the record of a position, and
--   `cn_progress_store_save` and `cn_progress_store_load`. What the file calls and `malloc` answer is
--   given with the call: `Disk` for a save, `Opened` for a load.
-- * `Json` is the JSON writer and reader of `src/sync/kosync.c`, up to
--   `cn_kosync_serialize_progress` and `cn_kosync_parse_progress`. A reader is what is left of its
--   input, a writer what it has written. `strtod`, `strtoll`, and the constants, the product and the
--   sum of `double` are the parameter `Libc`; a finite `double` counts units of 2 ^ -1074.
--   `Json.Doubles` states that these round to the nearest (IEEE 754) and shows what the scaling of a
--   decimal then gives.
-- * `Http` is `src/net/netsimple.c` around the sockets: the checks on the parts of a request, the
--   lines of a request (`build_exchange_request`), and the response (`parse_status`). What the
--   network makes of a request is the parameter `Wire`.
-- * `Server` is the client of the server in `src/sync/kosync.c`: `Server.Url` reads its address,
--   `Server.Requests` makes the three requests with the lines of `Http` and the bodies of `Json`.
--   `Server.Compare` is `cn_kosync_classify_remote`, which no other code of the program calls.
-- * `Sync.Types` has the enumerations and results that the synchronisation shares. `Sync.Upload` is
--   `cn_kosync_progress_set` of `src/sync/kosync.c`. `Sync.Once` and `Sync.Run` are
--   `src/sync/kosync_sync.c`: `sync_once` is `cn_kosync_sync_once`, one function for each stage, over
--   a record of what its collaborators answer, and a run gives the result with the trace of its
--   calls. `Sync.Policy` is `src/sync/kosync_policy.c`, which turns that result into the outcome
--   that the product shows; `Sync.Run.Reported` relates the outcome and the trace.
-- * `Time` is `src/time/timesimple.c`: the SNTP packets and the time they stand for.
-- * `Names` has the tables of the names of the result codes, from seven files.
-- * `Base` has the shared helpers, and `Examples` the runs on fixed inputs.
--
-- A text is the list of its bytes in front of the NUL, and a NULL pointer is `none`. A pointer to a
-- result that the code writes through becomes part of the value that the function returns. Loops
-- that a list does not drive run on fuel: the blocks of an MD5 update and the UTF-8 loops on the
-- length of their input, of which each round takes at least a byte, and so do the strings and the
-- members of the JSON reader.
--
-- In `Sync.Run` the local store, the clock, the resolver and the server are given by their answers:
-- the run calls each at most once. The identity of the document and the record that is uploaded are
-- computed by the code itself.
--
-- Not modelled: the sockets and the framing of
-- `src/net/netsimple.c`, the DNS client, the paths of the records and the other stores, the
-- controllers, the user interface, and the calls of the operating system, of BearSSL, of FreeType and of CREngine.
pub mod Base
pub mod Examples
pub mod Http
pub mod Json
pub mod KoreaderIdentity
pub mod Md5
pub mod Names
pub mod Progress
pub mod Server
pub mod Sync
pub mod Time
pub mod Utf8
