-- ===== src/Posture.antt =====
-- internal/posture/posture.go: the file system of the deployed image.
use ocu_rclone_filestore.Base.{Text, codes, ◌++◌}

abbrev pub home : Text
home = codes "/root"

abbrev pub cache_tmpfs : Text
cache_tmpfs = home ++ codes "/.cache"
