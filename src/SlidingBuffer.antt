-- ===== src/SlidingBuffer.antt =====
-- The interface of `dlib::sliding_buffer_kernel_1` as src/agent.cpp uses it: a circular array whose
-- positions are read modulo its size. The agent never rotates it.
use cppagent.Base.{ℕ, ◌%◌, ◌≡◌, Option, none, some, if◌then◌else◌, ◌==◌, refl}
use cppagent.Observation.{Observation}
use native.Mathlib.Nat.{mod-mod}

-- The type of the buffer and its operations; `at` is `none` for a null pointer.
pub record SlidingBuffer : Type 1 where
  pub Buffer : Type 0
  pub fresh : Buffer
  pub at : Buffer → ℕ → Option Observation
  pub write : Buffer → ℕ → Observation → Buffer
  pub element_id : ℕ → ℕ

-- What its documentation says of a buffer of a size: a position is read modulo the size, a write is
-- what the reads of its position return, a new buffer holds default values, and the element id of a
-- position is that position modulo the size while nothing is rotated.
pub record SlidingBufferLaws (lib : SlidingBuffer) (buffer_size : ℕ) : Type 0 where
  pub at-fresh : (i : ℕ) → lib.at lib.fresh i ≡ none
  pub at-mod : (b : lib.Buffer) (i : ℕ) → lib.at b (i % buffer_size) ≡ lib.at b i
  pub at-write :
      (b : lib.Buffer) (i j : ℕ) (o : Observation)
      → lib.at (lib.write b i o) j
        ≡ (if i % buffer_size == j % buffer_size then some o else lib.at b j)
  pub element_id-mod : (i : ℕ) → lib.element_id i ≡ i % buffer_size

-- A function from positions has the interface, and it meets the laws.
abbrev pub by_function : ℕ → SlidingBuffer
by_function buffer_size = record {
  Buffer = ℕ → Option Observation;
  fresh = λ i. none;
  at = λ b i. b (i % buffer_size);
  write = λ b i o j. if i % buffer_size == j then some o else b j;
  element_id = λ i. i % buffer_size;
}

pub by_function-SlidingBufferLaws :
    (buffer_size : ℕ) → SlidingBufferLaws (by_function buffer_size) buffer_size
by_function-SlidingBufferLaws buffer_size = record {
  at-fresh = λ i. refl;
  at-mod = λ b i. ap' b (mod-mod i buffer_size);
  at-write = λ b i j o. refl;
  element_id-mod = λ i. refl;
}
  where
    ap' : (b : ℕ → Option Observation) {i j : ℕ} → i ≡ j → b i ≡ b j
    ap' b p k = b (p k)
