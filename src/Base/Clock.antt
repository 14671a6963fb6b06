-- ===== src/Base/Clock.antt =====
-- Broken-down local time, as libc gives it, and its text forms by `sprintf`.
use Prim.Native.Nat.{ℕ, ◌+◌, ◌*◌, ◌/◌, ◌%◌, ◌<◌}
use mathlib.Core.Path.{◌≡◌, refl, ap, ◌∙◌}
use mathlib.Core.List.{[], ◌∷◌, ◌++◌}
use native.Mathlib.Omega.{arith}
use rate_engine.Base.Tests.{ltb, if◌then◌else◌}
use rate_engine.Base.Int.{ℤ, pos, negsuc}
use rate_engine.Base.Strings.{Text, strcmp}

-- `struct tm`: `mon` counts from 0 and `year` from 1900; `wday` is 0 on a Sunday.
pub record Tm : Type 0 where
  pub sec : ℕ
  pub min : ℕ
  pub hour : ℕ
  pub mday : ℕ
  pub mon : ℕ
  pub year : ℕ
  pub wday : ℕ

-- `%.2d`, for a number below 100.
abbrev pub two_digits : ℕ → Text
two_digits n = (b'0' + n / 10) ∷ (b'0' + n % 10) ∷ []

-- `%d` or `%.4d`, for a year of four digits.
abbrev pub four_digits : ℕ → Text
four_digits n = two_digits (n / 100) ++ two_digits (n % 100)

abbrev pub colon_time : ℕ → ℕ → ℕ → Text
colon_time h m s = two_digits h ++ (b':' ∷ two_digits m ++ (b':' ∷ two_digits s))

abbrev pub dash_date : ℕ → ℕ → ℕ → Text
dash_date y m d = four_digits y ++ (b'-' ∷ two_digits m ++ (b'-' ∷ two_digits d))

-- The sign of a comparison of numbers, as `strcmp` gives it.
abbrev pub sign : ℕ → ℕ → ℤ → ℤ
sign m n next = if ltb m n then negsuc 0 else if ltb n m then pos 1 else next

strcmp-two_digits :
    (m n : ℕ) (s t : Text)
    → m < 100
    → n < 100
    → strcmp (two_digits m ++ s) (two_digits n ++ t) ≡ sign m n (strcmp s t)
unfolding strcmp
strcmp-two_digits m n s t h k = ground arith

abbrev pub hour_minute : ℕ → ℕ → Text
hour_minute h m = two_digits h ++ (b':' ∷ two_digits m)

strcmp-same : (c : ℕ) (s t : Text) → strcmp (c ∷ s) (c ∷ t) ≡ strcmp s t
unfolding strcmp
strcmp-same c s t = ground arith

strcmp-shorter : (c : ℕ) (t : Text) → strcmp [] (c ∷ t) ≡ negsuc 0
unfolding strcmp
strcmp-shorter c t = refl

strcmp-empty : strcmp [] [] ≡ pos 0
unfolding strcmp
strcmp-empty = refl

sign-hundreds :
    (y y' : ℕ) (z : ℤ) → sign (y / 100) (y' / 100) (sign (y % 100) (y' % 100) z) ≡ sign y y' z
sign-hundreds y y' z = ground arith

-- Hours and minutes against a whole time.
pub strcmp-hour_minute :
    (h m h' m' s' : ℕ)
    → h < 100
    → m < 100
    → h' < 100
    → m' < 100
    → strcmp (hour_minute h m) (colon_time h' m' s') ≡ sign h h' (sign m m' (negsuc 0))
strcmp-hour_minute h m h' m' s' p q p' q' =
    strcmp-two_digits h h' _ _ p p'
    ∙ ap (sign h h') (
        strcmp-same b':' _ _
        ∙ strcmp-two_digits m m' [] _ q q'
        ∙ ap (sign m m') (strcmp-shorter _ _))

pub strcmp-hour_minutes :
    (h m h' m' : ℕ)
    → h < 100
    → m < 100
    → h' < 100
    → m' < 100
    → strcmp (hour_minute h m) (hour_minute h' m') ≡ sign h h' (sign m m' (pos 0))
strcmp-hour_minutes h m h' m' p q p' q' =
    strcmp-two_digits h h' _ _ p p'
    ∙ ap (sign h h')
        (strcmp-same b':' _ _ ∙ strcmp-two_digits m m' [] [] q q' ∙ ap (sign m m') strcmp-empty)

strcmp-two_two :
    (m n m' n' : ℕ) (s t : Text)
    → m < 100
    → n < 100
    → m' < 100
    → n' < 100
    → strcmp (two_digits m ++ (two_digits n ++ s)) (two_digits m' ++ (two_digits n' ++ t))
      ≡ sign m m' (sign n n' (strcmp s t))
strcmp-two_two m n m' n' s t p q p' q' =
    strcmp-two_digits m m' _ _ p p' ∙ ap (sign m m') (strcmp-two_digits n n' s t q q')

-- Dates of four-digit years.
pub strcmp-dates :
    (y m d y' m' d' : ℕ)
    → y < 10000
    → m < 100
    → d < 100
    → y' < 10000
    → m' < 100
    → d' < 100
    → strcmp (dash_date y m d) (dash_date y' m' d') ≡ sign y y' (sign m m' (sign d d' (pos 0)))
strcmp-dates y m d y' m' d' p q r p' q' r' =
    strcmp-two_two (y / 100) (y % 100) (y' / 100) (y' % 100) _ _ (omega arith) (omega arith)
      (omega arith) (omega arith)
    ∙ ap (λ z. sign (y / 100) (y' / 100) (sign (y % 100) (y' % 100) z))
        (strcmp-same b'-' _ _
          ∙ strcmp-two_digits m m' _ _ q q'
          ∙ ap (sign m m') (
              strcmp-same b'-' _ _
              ∙ strcmp-two_digits d d' [] [] r r'
              ∙ ap (sign d d') strcmp-empty))
    ∙ sign-hundreds y y' _

-- Two whole times.
pub strcmp-times :
    (h m s h' m' s' : ℕ)
    → h < 100
    → m < 100
    → s < 100
    → h' < 100
    → m' < 100
    → s' < 100
    → strcmp (colon_time h m s) (colon_time h' m' s') ≡ sign h h' (sign m m' (sign s s' (pos 0)))
strcmp-times h m s h' m' s' p q r p' q' r' =
    strcmp-two_digits h h' _ _ p p'
    ∙ ap (sign h h') (
        strcmp-same b':' _ _
        ∙ strcmp-two_digits m m' _ _ q q'
        ∙ ap (sign m m') (
            strcmp-same b':' _ _ ∙ strcmp-two_digits s s' [] [] r r' ∙ ap (sign s s') strcmp-empty))

-- A date as one number, in the order of the calendar.
abbrev pub date_key : ℕ → ℕ → ℕ → ℕ
date_key y m d = 10000 * y + 100 * m + d

-- `strcmp` orders dates as the calendar does.
pub strcmp-date_key :
    (y m d y' m' d' : ℕ)
    → y < 10000
    → m < 100
    → d < 100
    → y' < 10000
    → m' < 100
    → d' < 100
    → strcmp (dash_date y m d) (dash_date y' m' d')
      ≡ sign (date_key y m d) (date_key y' m' d') (pos 0)
strcmp-date_key y m d y' m' d' p q r p' q' r' =
    rw (strcmp-dates y m d y' m' d' p q r p' q' r') (ground arith)
