-- ===== src/CdrMediator/RecType.antt =====
-- `cdr_rec_type_t` of mod/CDRMediator/cdr.h: the service of a record.
use rate_engine.Base.{ℕ}

abbrev pub unkn : ℕ
unkn = 0

abbrev pub isup : ℕ
isup = 1

abbrev pub sms : ℕ
sms = 2

abbrev pub voip_a : ℕ
voip_a = 3

abbrev pub voip_v : ℕ
voip_v = 4

abbrev pub voip_t : ℕ
voip_t = 5
