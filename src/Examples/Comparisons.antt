-- ===== src/Examples/Comparisons.antt =====
-- Two devices with positions of the same book.
use crossnook.Base.{◌≡◌, refl, some}
use crossnook.Sync.Types.{KosyncProgress}
use crossnook.Server.Compare.{RemoteState, classify_remote, seen_by, seen_by_asym}
use crossnook.Examples.Progresses.{sample_progress}
use crossnook.Base.{codes}

abbrev early : KosyncProgress
early = record sample_progress { timestamp = 100; has_timestamp = 1 }

abbrev late : KosyncProgress
late = record sample_progress {
  timestamp = 200;
  has_timestamp = 1;
  device_id = codes "another";
  progress_10000 = some 9000;
  logical_position = some (codes "/body/p[9]");
}

late_newer : seen_by early late ≡ RemoteState.newer
unfolding classify_remote
late_newer = refl

seen_by_asym_example : ¬ (seen_by late early ≡ RemoteState.newer)
seen_by_asym_example = seen_by_asym early late refl late_newer
