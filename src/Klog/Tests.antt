-- ===== src/Klog/Tests.antt =====
-- The theorems of the log on the log that the kernel starts with.
use vyro_os.Base.{ℕ, ◌≡◌, List, [], ◌∷◌, ◌++◌, take, drop, leb, if◌then◌else◌}
use vyro_os.Base.Text.{c_str}
use vyro_os.Klog.{klog_max, boot, klog}
use vyro_os.Klog.Lines.{IsValid, lines, boot-IsValid, klog_lem}

abbrev ready : List ℕ
ready = 111 ∷ 107 ∷ 0 ∷ 33 ∷ []

klog_lem_example :
    (lines (klog boot ready)
      ≡ (if leb klog_max boot.count then drop 1 (lines boot) else lines boot)
        ++ (take 79 (c_str ready) ∷ []))
    × IsValid (klog boot ready)
klog_lem_example = klog_lem boot ready boot-IsValid
