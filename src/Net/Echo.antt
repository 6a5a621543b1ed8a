-- ===== src/Net/Echo.antt =====
-- What `read_n_echo` and the set-up of a server promise.
use linux_modern_io_multiple.Prelude.{
  ℕ, ◌≤◌, ◌<◌, ◌≡◌, ◌≢◌, ◌⊎◌, refl, ap, arith, List, [], ◌∷◌, ◌++◌, length, take, drop, true, false,
  Bool, inl, inr, dec_lt, ℕ_discrete,
}
use linux_modern_io_multiple.Prelude.Int.{ℤ, pos, negsuc}
use linux_modern_io_multiple.Prelude.Run.{ok, exited}
use linux_modern_io_multiple.Net.{got, filled, read_n_echo, accept_client}

take-append_exact : (xs ys : List ℕ) → take (length xs) (xs ++ ys) ≡ xs
take-append_exact [] ys = refl
take-append_exact (x ∷ xs) ys = ap (λ t. x ∷ t) (take-append_exact xs ys)

-- `write` failed, or took less than a message.
abbrev pub IsShort : ℕ → ℤ → Type 0
IsShort n (pos w) = w < n
IsShort n (negsuc w) = Unit

abbrev pub LongEnough : ℕ → ℤ → Type 0
LongEnough n (pos w) = n ≤ w
LongEnough n (negsuc w) = ⊥

wrong_length :
    (n : ℕ) (buf bytes : List ℕ) (write : ℤ)
    → length bytes ≢ 0
    → length bytes ≢ n
    → read_n_echo n buf (got bytes) write ≡ exited
unfolding read_n_echo
wrong_length n buf bytes write some_read e = ground arith

-- One whole message, and what becomes of it.
echo_message :
    (n : ℕ) (buf bytes : List ℕ) (write : ℤ)
    → n ≢ 0
    → length bytes ≡ n
    → (LongEnough n write
        × (read_n_echo n buf (got bytes) write
            ≡ ok (record { read_bytes = n; buf = filled bytes buf; sent = bytes })))
      ⊎ (IsShort n write × (read_n_echo n buf (got bytes) write ≡ exited))
unfolding read_n_echo
echo_message n buf bytes (pos w) ne e = elim (dec_lt w n) [
  | yes short ↦ inr (short, ground arith)
  | no long ↦ inl (omega arith, ground (arith, take-append_exact bytes (drop (length bytes) buf)))
]
echo_message n buf bytes (negsuc w) ne e = inr (tt, ground arith)

pub read_n_echo_message :
    (n : ℕ) (buf bytes : List ℕ) (write : ℤ)
    → n ≢ 0
    → length bytes ≡ n
    → LongEnough n write
    → read_n_echo n buf (got bytes) write
      ≡ ok (record { read_bytes = n; buf = filled bytes buf; sent = bytes })
unfolding read_n_echo
read_n_echo_message n buf bytes (pos w) ne e long =
    ground (arith, take-append_exact bytes (drop (length bytes) buf))
read_n_echo_message n buf bytes (negsuc w) ne e long = absurd long

-- The three cases of `read_n_echo`: nothing is read, and it returns 0 and sends nothing; one whole
-- message is read and `write` takes at least as much, and it returns the length, with the message
-- at the start of the buffer, having handed exactly the bytes read to `write`; or a part of a
-- message, or more than one, is read, or `write` fails or falls short, and it leaves the process.
pub read_n_echo_lem :
    (n : ℕ) (buf bytes : List ℕ) (write : ℤ)
    → n ≢ 0
    → ((bytes ≡ [])
        × (read_n_echo n buf (got bytes) write
            ≡ ok (record { read_bytes = 0; buf = buf; sent = [] })))
      ⊎ ((length bytes ≡ n)
          × LongEnough n write
          × (read_n_echo n buf (got bytes) write
              ≡ ok (record { read_bytes = n; buf = filled bytes buf; sent = bytes })))
      ⊎ ((bytes ≢ [])
          × ((length bytes ≢ n) ⊎ IsShort n write)
          × (read_n_echo n buf (got bytes) write ≡ exited))
read_n_echo_lem n buf [] write ne = inl (refl, unfold read_n_echo in refl)
read_n_echo_lem n buf (b ∷ bs) write ne = elim (ℕ_discrete (length (b ∷ bs)) n) [
  | yes e ↦ elim (echo_message n buf (b ∷ bs) write ne e) [
    | inl (long, r) ↦ inr (inl (e, long, r))
    | inr (short, r) ↦ inr (inr ((λ p. cc), inr short, r))
  ]
  | no e ↦ inr (inr ((λ p. cc), inl e, wrong_length n buf (b ∷ bs) write (omega arith) e))
]

-- `accept_client` returns a client's descriptor, or -1 exactly when the kernel says that none is
-- pending; at any other error it leaves the process.
pub accept_client_lem :
    (accept4 : ℤ) (again : Bool)
    → ((fd : ℕ) × (accept4 ≡ pos fd) × (accept_client accept4 again ≡ ok (pos fd)))
      ⊎ ((e : ℕ) × (accept4 ≡ negsuc e)
          × (again ≡ true)
          × (accept_client accept4 again ≡ ok (negsuc 0)))
      ⊎ ((e : ℕ) × (accept4 ≡ negsuc e) × (again ≡ false) × (accept_client accept4 again ≡ exited))
unfolding accept_client
accept_client_lem (pos fd) again = inl (fd, refl, refl)
accept_client_lem (negsuc e) true = inr (inl (e, refl, refl, refl))
accept_client_lem (negsuc e) false = inr (inr (e, refl, refl, refl))
