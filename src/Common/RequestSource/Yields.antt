-- ===== src/Common/RequestSource/Yields.antt =====
-- How often StaticRequestSourceImpl yields a request: request_source_impl.cc.
use nighthawk.Base.{ℕ, zero, suc, ◌%◌, ◌<◌, ◌≡◌, ◌↔◌, Option, none, arith, word_size, dec64}
use nighthawk.Common.RequestSource.{static_next}

-- The answer to the call after k calls of the generator.
unfoldable pub static_answer : {R : Type 0} → R → ℕ → ℕ → Option R
unfolding static_next
static_answer header yields zero = (static_next header yields).0
static_answer header yields (suc k) = static_answer header (static_next header yields).1 k

-- The generator yields nothing on the call with which max_yields is exceeded, and then only once in
-- 2^64 calls: after k calls the answer is null exactly if k is max_yields modulo 2^64.
pub static_answer-eq-none :
    {R : Type 0} (header : R) (max_yields k : ℕ)
    → max_yields < word_size
    → (static_answer header max_yields k ≡ none) ↔ (k % word_size ≡ max_yields)
unfolding static_answer static_next
static_answer-eq-none header max_yields zero fits = ground arith
static_answer-eq-none header max_yields (suc k) fits =
    let ih = static_answer-eq-none header (dec64 max_yields) k (omega arith) in ground (arith, ih)
