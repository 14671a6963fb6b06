-- ===== src/Rating/Workers.antt =====
-- rt_loop of rating.c: how the records of a batch are shared among the threads.
use rate_engine.Base.{
  ℕ, zero, suc, ◌+◌, ◌*◌, ◌/◌, ◌%◌, ◌<◌, ◌≡◌, refl, ap, ◌∙◌, List, [], ◌∷◌, ◌++◌, arith, ltb,
  if◌then◌else◌,
}

-- The numbers from `start` on, `count` of them.
unfoldable pub range : ℕ → ℕ → List ℕ
range start zero = []
range start (suc count) = start ∷ range (suc start) count

unfoldable pub worker_start : ℕ → ℕ → ℕ → ℕ
worker_start pp num_threads t =
    t * (pp / num_threads) + (if ltb t (pp % num_threads) then t else pp % num_threads)

unfoldable pub worker_count : ℕ → ℕ → ℕ → ℕ
worker_count pp num_threads t = pp / num_threads + (if ltb t (pp % num_threads) then 1 else 0)

-- `workers[t].indices`.
unfoldable pub worker_indices : ℕ → ℕ → ℕ → List ℕ
worker_indices pp num_threads t =
    range (worker_start pp num_threads t) (worker_count pp num_threads t)

-- The records of the first `t` threads, in order.
unfoldable pub shares : ℕ → ℕ → ℕ → List ℕ
shares pp num_threads zero = []
shares pp num_threads (suc t) = shares pp num_threads t ++ worker_indices pp num_threads t

range-append : (s m n k t : ℕ) → k ≡ s + m → t ≡ m + n → range s m ++ range k n ≡ range s t
unfolding range
range-append s zero n k t e f =
    let p : k ≡ s = omega (arith, e) in let q : t ≡ n = omega (arith, f) in rw (p, q) refl
range-append s (suc m) n k zero e f = absurd (omega (arith, f))
range-append s (suc m) n k (suc t) e f =
    ap (λ xs. s ∷ xs) (range-append (suc s) m n k t (omega (arith, e)) (omega (arith, f)))

worker_start-suc :
    (pp n t : ℕ) → worker_start pp n (suc t) ≡ worker_start pp n t + worker_count pp n t
unfolding worker_start worker_count
worker_start-suc pp n t = ground arith

worker_start-all : (pp n : ℕ) → 0 < n → worker_start pp n n ≡ pp
unfolding worker_start
worker_start-all pp n h = ground arith

worker_start-zero : (pp n : ℕ) → worker_start pp n 0 ≡ 0
unfolding worker_start
worker_start-zero pp n = ground arith

range-zero : (s k : ℕ) → k ≡ 0 → [] ≡ range s k
unfolding range
range-zero s k e = rw e refl

shares-start : (pp n t : ℕ) → shares pp n t ≡ range 0 (worker_start pp n t)
unfolding shares worker_indices
shares-start pp n zero = range-zero 0 (worker_start pp n 0) (worker_start-zero pp n)
shares-start pp n (suc t) =
    ap (λ xs. xs ++ worker_indices pp n t) (shares-start pp n t)
    ∙ range-append 0 (worker_start pp n t) (worker_count pp n t) (worker_start pp n t)
        (worker_start pp n (suc t)) (omega arith) (worker_start-suc pp n t)

-- With at least one thread, the threads together handle every record of the batch once, in order.
pub shares-all :
    (pp num_threads : ℕ) → 0 < num_threads → shares pp num_threads num_threads ≡ range 0 pp
shares-all pp n h = shares-start pp n n ∙ ap (range 0) (worker_start-all pp n h)
