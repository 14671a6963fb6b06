-- ===== src/Rating/Mode.antt =====
-- `rt_mode_t` of mod/Rating/rt_data.h: which field of a call names its account.
use rate_engine.Base.{ℕ}

abbrev pub clg : ℕ
clg = 1

abbrev pub acode : ℕ
acode = 2

abbrev pub srcc : ℕ
srcc = 3

abbrev pub dstc : ℕ
dstc = 4

abbrev pub srctg : ℕ
srctg = 5

abbrev pub dsttg : ℕ
dsttg = 6

abbrev pub sms : ℕ
sms = 7
