-- ===== src/Database/Tests.antt =====
-- A database opened on a disk that counts its connections.
use dcn1003_group.Base.{◌≡◌, refl, none, some, [], Bytes, codes, bytes_eq, is_empty}
use dcn1003_group.Database.{Database, open_path}
use dcn1003_group.Database.Owned.{Settled}
use dcn1003_group.Database.Opened.{Fresh, Holds, open_path-Fresh}
use dcn1003_group.Examples.Logged.{LogDb, counting_files, counting_files-Connections, exec_log}

-- An open database beside two connections of others.
abbrev old : Database LogDb
old = record { handle = some (record { log = []; began = none }); last_error = [] }

abbrev path : Bytes
path = codes "data/DCN.db"

open_path-Fresh_example :
    Holds counting_files
      (Fresh counting_files path old.handle 3)
      (open_path counting_files path old 3)
    × Settled counting_files counting_files-Connections 2 (open_path counting_files path old 3)
open_path-Fresh_example =
    open_path-Fresh counting_files counting_files-Connections 2 path old 3 refl

opens_again : (open_path counting_files path old 3).2 ≡ 3
unfolding open_path codes is_empty bytes_eq exec_log
opens_again = refl
