-- ===== src/Kv/Cache/Reply.antt =====
-- The texts that kvstore/lrucache.cc and kvstore/chunkserver.cc send.
use cis505_penn_cloud.Prelude.{◌++◌, ◌∷◌}
use cis505_penn_cloud.Prelude.Int.{ℤ}
use cis505_penn_cloud.Prelude.Text.{Bytes, codes, crlf}
use cis505_penn_cloud.Prelude.Decimal.{print_int}

abbrev pub storage_exceeds : Bytes
storage_exceeds = codes "-ERR Your storage exceeds node capacity" ++ crlf

abbrev pub file_exceeds : Bytes
file_exceeds = codes "-ERR File size exceeds node capacity" ++ crlf

abbrev pub value_stored : Bytes
value_stored = codes "+OK Value stored" ++ crlf

abbrev pub new_value_stored : Bytes
new_value_stored = codes "+OK New value stored" ++ crlf

abbrev pub done : Bytes → ℤ → Bytes
done user seq_num = codes "DONE " ++ user ++ b',' ∷ print_int seq_num ++ crlf

abbrev pub no_such_file : Bytes
no_such_file = codes "-ERR No such file" ++ crlf

abbrev pub no_such_user : Bytes
no_such_user = codes "-ERR User not exist" ++ crlf

abbrev pub value_follows : Bytes
value_follows = codes "+OK value as follows: " ++ crlf

abbrev pub list_follows : Bytes
list_follows = codes "+OK list as follows: " ++ crlf

abbrev pub version_check_fail : Bytes
version_check_fail = codes "-ERR Version check fail" ++ crlf

abbrev pub file_deleted : Bytes
file_deleted = codes "+OK File deleted" ++ crlf

abbrev pub file_renamed : Bytes
file_renamed = codes "+OK File renamed" ++ crlf

abbrev pub not_supported : Bytes
not_supported = codes "-ERR Not supported" ++ crlf
