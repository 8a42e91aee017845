-- ===== src/Pst/Format/PropType.antt =====
-- `PropType` of pst_format.h: the types that the writer uses.
use imap2pst.Base.{ℕ}

abbrev pub short : ℕ
short = 0x0002

abbrev pub long : ℕ
long = 0x0003

abbrev pub floating : ℕ
floating = 0x0004

abbrev pub double : ℕ
double = 0x0005

abbrev pub currency : ℕ
currency = 0x0006

abbrev pub app_time : ℕ
app_time = 0x0007

abbrev pub error : ℕ
error = 0x000A

abbrev pub boolean : ℕ
boolean = 0x000B

abbrev pub object : ℕ
object = 0x000D

abbrev pub long_long : ℕ
long_long = 0x0014

abbrev pub string8 : ℕ
string8 = 0x001E

abbrev pub unicode : ℕ
unicode = 0x001F

abbrev pub systime : ℕ
systime = 0x0040

abbrev pub binary : ℕ
binary = 0x0102
