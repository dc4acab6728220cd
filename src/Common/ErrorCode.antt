-- ===== src/Common/ErrorCode.antt =====
-- error_code::type of include/detail/hiredis_happ_config.h.in, and the codes of hiredis that the
-- source names.
use hiredis_happ.Common.Int.{ℤ, pos, negsuc}

abbrev pub ok : ℤ
ok = pos 0

abbrev pub unknown : ℤ
unknown = negsuc 1000

abbrev pub hiredis : ℤ
hiredis = negsuc 1001

abbrev pub ttl : ℤ
ttl = negsuc 1002

abbrev pub connection : ℤ
connection = negsuc 1003

abbrev pub slot_unavailable : ℤ
slot_unavailable = negsuc 1004

abbrev pub create : ℤ
create = negsuc 1005

abbrev pub param : ℤ
param = negsuc 1006

abbrev pub timeout : ℤ
timeout = negsuc 1007

abbrev pub not_found : ℤ
not_found = negsuc 1008

abbrev pub timer_not_available : ℤ
timer_not_available = negsuc 1009
