-- ===== src/Zephyr/ByteRing.antt =====
-- A ring buffer in byte mode, `struct ring_buf` with ring_buf_put and ring_buf_get, that
-- ring_buf_init made for `size` bytes.
pub mod Flow
pub mod Awake
use echo_bot.Prelude.{ℕ, ◌-◌, ◌≤◌, ◌≡◌, List, [], ◌++◌, length, take, drop, min}

pub record ByteRing (size : ℕ) : Type 1 where
  pub Rb : Type 0
  -- How many bytes are written, as many as there is room for.
  pub ring_buf_put : Rb → List ℕ → ℕ × Rb
  -- At most that many bytes, which leave the buffer.
  pub ring_buf_get : Rb → ℕ → List ℕ × Rb
  pub ring_buf_init : Rb
  -- the bytes in the buffer, oldest first
  pub bytes : Rb → List ℕ
  pub bytes-put :
      (rb : Rb) (src : List ℕ)
      → bytes (ring_buf_put rb src).1 ≡ bytes rb ++ take (size - length (bytes rb)) src
  pub count-put :
      (rb : Rb) (src : List ℕ)
      → (ring_buf_put rb src).0 ≡ min (length src) (size - length (bytes rb))
  pub taken-get : (rb : Rb) (n : ℕ) → (ring_buf_get rb n).0 ≡ take n (bytes rb)
  pub bytes-get : (rb : Rb) (n : ℕ) → bytes (ring_buf_get rb n).1 ≡ drop n (bytes rb)
  pub bytes-init : bytes ring_buf_init ≡ []
