-- ===== src/Helper/Deadline.antt =====
-- `Config.OpDeadline` of daemon/internal/helper/config/config.go.
-- An `int` is an integer of two constructors; a Duration is a number of nanoseconds held as the
-- bit pattern of an int64, so that a product past 2^63 would read as a negative one.
use host_health_mcp.Base.{
  ℕ, ◌-◌, ◌*◌, ◌/◌, ◌%◌, ◌^◌, ◌≤◌, String, Bool, ◌&&◌, Option, none, some, ◌≡◌, arith, ltb,
  if◌then◌else◌, min, max,
}

-- `negsuc n` is -(n + 1).
pub data ℤ : Type 0 where
  pos : ℕ → ℤ
  negsuc : ℕ → ℤ

-- What `if v > 0` lets through.
abbrev pub positive : ℤ → Option ℕ
positive (pos n) = if ltb 0 n then some n else none
positive (negsuc n) = none

abbrev pub millisecond : ℕ
millisecond = 1_000_000

abbrev pub default_op_deadline : ℕ
default_op_deadline = 9500 * millisecond

abbrev pub min_op_deadline : ℕ
min_op_deadline = 250 * millisecond

abbrev pub max_op_deadline : ℕ
max_op_deadline = 15_000 * millisecond

abbrev pub max_deadline_ms : ℕ
max_deadline_ms = (2 ^ 63 - 1) / millisecond

-- `a > b` of int64 bit patterns, for a `b` that is not negative.
abbrev pub int64_gt : ℕ → ℕ → Bool
int64_gt a b = ltb a (2 ^ 63) && ltb b a

unfoldable pub ms_to_duration : ℕ → ℕ → ℕ
ms_to_duration ms ceiling =
    if ltb max_deadline_ms ms
    then ceiling
    else let d = ms * millisecond % 2 ^ 64 in if int64_gt d ceiling then ceiling else d

-- `c.OpDeadlineMS`
abbrev pub Overrides : Type 0
Overrides = String → Option ℤ

abbrev pub limit_ms : Option ℤ → Option ℕ
limit_ms none = none
limit_ms (some v) = positive v

-- Each `if` of `OpDeadline` in turn.
abbrev pub configured : Option ℕ → ℕ
configured none = default_op_deadline
configured (some v) = ms_to_duration v max_op_deadline

abbrev pub at_most : ℕ → ℕ → ℕ
at_most bound d = if ltb bound d then bound else d

abbrev pub narrowed : Option ℕ → ℕ → ℕ
narrowed none d = d
narrowed (some ms) d =
    let caller = ms_to_duration ms max_op_deadline in if ltb caller d then caller else d

abbrev pub at_least : ℕ → ℕ → ℕ
at_least bound d = if ltb d bound then bound else d

unfoldable pub op_deadline : Overrides → String → ℤ → ℕ
op_deadline overrides op caller_ms =
    at_least min_op_deadline (
      narrowed (positive caller_ms)
        (at_most max_op_deadline (configured (limit_ms (overrides op)))))

-- No product that is taken overflows, and the result is the time asked for, cut at the ceiling.
ms_to_duration-min :
    (ms ceiling : ℕ)
    → ceiling ≤ max_op_deadline
    → ms_to_duration ms ceiling ≡ min (ms * millisecond) ceiling
unfolding ms_to_duration
ms_to_duration-min ms ceiling h = ground arith

bounds_from :
    (o : Option ℕ) (base : ℕ)
    → base ≤ max_op_deadline
    → (min_op_deadline ≤ at_least min_op_deadline (narrowed o base))
      × (at_least min_op_deadline (narrowed o base) ≤ max_op_deadline)
      × (at_least min_op_deadline (narrowed o base) ≤ at_least min_op_deadline base)
      × ((ms : ℕ)
          → o ≡ some ms
          → at_least min_op_deadline (narrowed o base)
            ≡ max min_op_deadline (min (ms * millisecond) (at_least min_op_deadline base)))
bounds_from none base h = (ground arith, ground arith, ground arith, λ ms e. cc)
bounds_from (some n) base h =
    let m = ms_to_duration-min n max_op_deadline (omega arith) in
    (ground arith, ground arith, ground arith, λ ms e. ground (arith, m))

-- The deadline of an op always lies between the least and the greatest, whatever is configured and
-- whatever the daemon sends; a budget that the daemon sends never lengthens it, and cuts it to that
-- budget unless this falls below the least deadline.
pub op_deadline_bounds :
    (overrides : Overrides) (op : String) (caller_ms : ℤ)
    → (min_op_deadline ≤ op_deadline overrides op caller_ms)
      × (op_deadline overrides op caller_ms ≤ max_op_deadline)
      × (op_deadline overrides op caller_ms ≤ op_deadline overrides op (pos 0))
      × ((ms : ℕ)
          → positive caller_ms ≡ some ms
          → op_deadline overrides op caller_ms
            ≡ max min_op_deadline (min (ms * millisecond) (op_deadline overrides op (pos 0))))
unfolding op_deadline
op_deadline_bounds overrides op caller_ms =
    let base = at_most max_op_deadline (configured (limit_ms (overrides op))) in
    bounds_from (positive caller_ms) base (ground arith)
