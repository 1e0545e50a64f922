-- ===== src/Logic/Token.antt =====
-- internal/logic/token.go: verifyTokenFlow. The cache and the account service are parameters:
-- every call is recorded, the latest first, and its answer may depend on all calls before it; the
-- hash of the token is a parameter too.
pub mod Cached
use link_im.Prelude.{
  ℕ, Bool, true, false, ◌&&◌, ◌||◌, not, List, [], ◌∷◌, ◌++◌, Option, none, some, if◌then◌else◌,
  take,
}
use link_im.Prelude.Int.{ℤ, pos, eq_ℤ}
use link_im.Prelude.Bytes.{Bytes, codes, bytes_eq}
use link_im.Decimal.{format_int}

abbrev pub code_ok : ℕ
code_ok = 0

abbrev pub code_invalid_tok : ℕ
code_invalid_tok = 40101

abbrev pub code_account_down : ℕ
code_account_down = 50102

abbrev pub cache_val : Bool → Bytes
cache_val true = codes "1"
cache_val false = codes "0"

pub data TokenCall : Type 0 where
  get : Bytes → TokenCall
  set : Bytes → Bytes → TokenCall
  verify : ℤ → Bytes → TokenCall

-- A miss of the cache is the empty text. `hex_sum` is the hexadecimal text of the first 16 bytes
-- of the token's SHA-256.
pub record TokenWorld : Type 0 where
  pub hex_sum : Bytes → Bytes
  pub on_get : List TokenCall → Option Bytes
  pub on_verify : List TokenCall → Option (ℤ × Bool)

pub record Verdict : Type 0 where
  pub uid : ℤ
  pub valid : Bool
  pub code : ℕ

abbrev pub verdict : ℤ → Bool → Verdict
verdict uid valid = record {
  uid = uid;
  valid = valid;
  code = if valid then code_ok else code_invalid_tok;
}

module _ (w : TokenWorld) where
  unfoldable pub token_cache_key : ℤ → Bytes → Bytes
  token_cache_key uid token =
      codes "tokencache:" ++ (format_int uid ++ (codes ":" ++ w.hex_sum token))

  -- A declared uid must be the token's.
  abbrev pub consistent : ℤ → ℤ → Bool → Bool
  consistent uid real valid = valid && (eq_ℤ uid (pos 0) || eq_ℤ real uid)

  abbrev pub answered : ℤ → Bytes → Option (ℤ × Bool) → List TokenCall → Verdict × List TokenCall
  answered uid token none h = (record { uid = pos 0; valid = false; code = code_account_down }, h)
  answered uid token (some (real, valid)) h = (
    verdict real (consistent uid real valid),
    set (token_cache_key uid token) (cache_val (consistent uid real valid)) ∷ h,
  )

  unfoldable pub ask_account : ℤ → Bytes → List TokenCall → Verdict × List TokenCall
  ask_account uid token h =
      answered uid token (w.on_verify (verify uid token ∷ h)) (verify uid token ∷ h)

  -- A failed read and a miss both go to the account service.
  abbrev pub from_cache : ℤ → Bytes → Option Bytes → List TokenCall → Verdict × List TokenCall
  from_cache uid token none h = ask_account uid token h
  from_cache uid token (some []) h = ask_account uid token h
  from_cache uid token (some (b ∷ bs)) h = (verdict uid (bytes_eq (b ∷ bs) (cache_val true)), h)

  unfoldable pub verify_token_flow : ℤ → Bytes → List TokenCall → Verdict × List TokenCall
  verify_token_flow uid token h =
      from_cache uid token (w.on_get (get (token_cache_key uid token) ∷ h))
        (get (token_cache_key uid token) ∷ h)

  -- The gRPC VerifyToken of server.go.
  unfoldable pub handle_verify_token : ℤ → Bytes → List TokenCall → Verdict × List TokenCall
  handle_verify_token uid token h =
      if bytes_eq token [] then (verdict (pos 0) false, h) else verify_token_flow uid token h
