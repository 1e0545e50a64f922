-- ===== src/Logic/Token/Cached.antt =====
-- What a verdict of verifyTokenFlow says, and how it is repeated from the cache.
use link_im.Prelude.{
  Bool, true, false, List, [], ◌∷◌, Option, none, some, ◌≡◌, ◌≢◌, ◌∙◌, refl, ap, arith,
}
use link_im.Prelude.Int.{ℤ, pos, eq_ℤ_iff}
use link_im.Prelude.Bytes.{Bytes}
use link_im.Logic.Token.{
  TokenWorld, TokenCall, get, set, verify, verdict, cache_val, consistent, answered, ask_account,
  from_cache, token_cache_key, verify_token_flow,
}

answered-uid :
    (w : TokenWorld) (uid : ℤ) (token : Bytes) (o : Option (ℤ × Bool)) (h : List TokenCall)
    → uid ≢ pos 0
    → (answered w uid token o h).0.valid ≡ true
    → (answered w uid token o h).0.uid ≡ uid
answered-uid w uid token none h ne e = absurd (cc e)
answered-uid w uid token (some (real, valid)) h ne e =
    ground (arith, eq_ℤ_iff uid (pos 0), eq_ℤ_iff real uid)

from_cache-uid :
    (w : TokenWorld) (uid : ℤ) (token : Bytes) (o : Option Bytes) (h : List TokenCall)
    → uid ≢ pos 0
    → (from_cache w uid token o h).0.valid ≡ true
    → (from_cache w uid token o h).0.uid ≡ uid
unfolding ask_account
from_cache-uid w uid token none h ne e = answered-uid w uid token _ _ ne e
from_cache-uid w uid token (some []) h ne e = answered-uid w uid token _ _ ne e
from_cache-uid w uid token (some (b ∷ bs)) h ne e = refl

-- For a declared uid other than 0, a valid verdict is always one for that uid, whether it comes
-- from the cache or from the account service.
pub verify_token_flow-uid :
    (w : TokenWorld) (uid : ℤ) (token : Bytes) (h : List TokenCall)
    → uid ≢ pos 0
    → (verify_token_flow w uid token h).0.valid ≡ true
    → (verify_token_flow w uid token h).0.uid ≡ uid
unfolding verify_token_flow
verify_token_flow-uid w uid token h ne e =
    from_cache-uid w uid token (w.on_get (get (token_cache_key w uid token) ∷ h))
      (get (token_cache_key w uid token) ∷ h) ne e

from_cache_val :
    (w : TokenWorld) (uid : ℤ) (token : Bytes) (b : Bool) (h : List TokenCall)
    → from_cache w uid token (some (cache_val b)) h ≡ (verdict uid b, h)
from_cache_val w uid token true h = refl
from_cache_val w uid token false h = refl

-- If the cache misses and the account service answers, then a later check of the same uid and
-- token, at which the cache gives what the first check wrote, repeats the validity and the code
-- of the first without asking the account service; its uid is the declared one, also where the
-- first answered with the token's owner.
pub verify_token_flow_again :
    (w : TokenWorld) (uid real : ℤ) (token : Bytes) (valid : Bool) (h g : List TokenCall)
    → w.on_get (get (token_cache_key w uid token) ∷ h) ≡ some []
    → w.on_verify (verify uid token ∷ get (token_cache_key w uid token) ∷ h) ≡ some (real, valid)
    → w.on_get (get (token_cache_key w uid token) ∷ g)
      ≡ some (cache_val (verify_token_flow w uid token h).0.valid)
    → (verify_token_flow w uid token h ≡ (
      verdict real (consistent w uid real valid),
      set (token_cache_key w uid token) (cache_val (consistent w uid real valid))
          ∷ verify uid token
          ∷ get (token_cache_key w uid token)
          ∷ h,
    ))
      × (verify_token_flow w uid token g ≡ (
        verdict uid (verify_token_flow w uid token h).0.valid,
        get (token_cache_key w uid token) ∷ g,
      ))
unfolding verify_token_flow ask_account
verify_token_flow_again w uid real token valid h g miss ans hit = (
  ap (λ o. from_cache w uid token o (get (token_cache_key w uid token) ∷ h)) miss
      ∙ ap (λ o. answered w uid token o (verify uid token ∷ get (token_cache_key w uid token) ∷ h))
          ans,
  ap (λ o. from_cache w uid token o (get (token_cache_key w uid token) ∷ g)) hit
      ∙ from_cache_val w uid token (verify_token_flow w uid token h).0.valid
          (get (token_cache_key w uid token) ∷ g),
)
