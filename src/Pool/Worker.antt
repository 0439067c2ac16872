-- ===== src/Pool/Worker.antt =====
-- pool/worker.go: the login of a worker.
-- White space of ASCII.
use sudharma.Base.{
  Bool, Bytes, Option, Option-cases, Result, [], arith, codes, fail_if, false, if◌then◌else◌, inl,
  inr, invalid_address, is_empty, leb, length, login_missing, nat_eq, none, not, ok, some,
  worker_name_empty, ℕ, ◌&&◌, ◌+◌, ◌>>=◌, ◌>>◌, ◌||◌, ◌∷◌, ◌≡◌,
}
use sudharma.Crypto.{all_lower_hex, validate_address}
use sudharma.Pool.Record.{WorkerIdentity}

unfoldable pub is_space : ℕ → Bool
is_space c = nat_eq c 32 || (leb 9 c && leb c 13)

unfoldable pub trim_left : Bytes → Bytes
trim_left [] = []
trim_left (c ∷ cs) = let rest = trim_left cs in if is_space c then rest else c ∷ cs

unfoldable pub trim_right : Bytes → Bytes
trim_right [] = []
trim_right (c ∷ cs) =
    let rest = trim_right cs in if is_space c && is_empty rest then [] else c ∷ rest

-- `strings.TrimSpace`
unfoldable pub trim_space : Bytes → Bytes
trim_space s = trim_right (trim_left s)

-- `strings.ToLower`
unfoldable pub to_lower : Bytes → Bytes
to_lower [] = []
to_lower (c ∷ cs) = (if leb b'A' c && leb c b'Z' then c + 32 else c) ∷ to_lower cs

-- `strings.SplitN(raw, ".", 2)`: what is before the first dot, and what is after it
unfoldable pub split_dot : Bytes → Bytes × Option Bytes
split_dot [] = ([], none)
split_dot (c ∷ cs) =
    let (before, after) = split_dot cs in
    if nat_eq c b'.' then ([], some cs) else (c ∷ before, after)

-- `ParseWorkerIdentity`
unfoldable pub parse_worker_identity : Bytes → Result WorkerIdentity
parse_worker_identity text = do
  fail_if (is_empty (trim_space text)) login_missing
  address ← ok (to_lower (trim_space (split_dot (trim_space text)).0))
  fail_if (not (nat_eq (length address) 40 && all_lower_hex address)) invalid_address
  name ← elim (split_dot (trim_space text)).1 [
    | none ↦ ok (codes "default")
    | some rest ↦ (fail_if (is_empty (trim_space rest)) worker_name_empty >> ok (trim_space rest))
  ]
  ok (record { address = address; worker_name = name; login = trim_space text })

-- A parsed login has an address that `ValidateAddress` accepts and a worker name.
pub parse_worker_identity_address :
    (text : Bytes) (w : WorkerIdentity)
    → parse_worker_identity text ≡ ok w
    → (validate_address w.address ≡ ok tt) × (is_empty w.worker_name ≡ false)
unfolding parse_worker_identity validate_address
parse_worker_identity_address text w h = elim (Option-cases (split_dot (trim_space text)).1) [
  | inl e ↦ (ground (arith, e), ground (arith, e))
  | inr (rest, e) ↦ (ground (arith, e), ground (arith, e))
]
