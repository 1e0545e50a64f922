-- ===== src/Logic/SendMsg/Resolve.antt =====
-- Which conversation a request addresses, and to whom it goes.
use link_im.Prelude.{
  true, Option, none, some, ◌≡◌, ◌≢◌, ◌⊎◌, inl, inr, sym, subst, ◌∙◌, arith, Bool-cases,
  Option-cases,
}
use link_im.Prelude.Int.{ℤ, ltb_ℤ, eq_ℤ, eq_ℤ_iff, eq_ℤ_refl, IsInt64}
use link_im.Prelude.Bytes.{Bytes, bytes_eq-eq, bytes_eq_refl}
use link_im.Service.Conv.{conv_id_for_p2p, parse_p2p_conv, conv_type_p2p, parse_group_conv}
use link_im.Service.Conv.RoundTrip.{parse-conv_id_for_p2p}
use link_im.Logic.SendMsg.{
  SendMsgReq, Target, peer, canonical, p2p_target, group_target, valid_params, resolve,
}

canonical-some :
    (conv_id given : Bytes) (t u : Target)
    → canonical conv_id given t ≡ some u
    → (conv_id ≡ given) × (t ≡ u)
unfolding canonical
canonical-some conv_id given t u h = ground (arith, bytes_eq-eq conv_id given)

canonical_self : (conv_id : Bytes) (t : Target) → canonical conv_id conv_id t ≡ some t
unfolding canonical
canonical_self conv_id t = rw (bytes_eq_refl conv_id)

-- What a resolved single chat says: the id is the canonical one of the sender and the peer, and
-- it is the id that the client gave.
pub record IsChat (sender : ℤ) (request_id : Bytes) (conv_id : Bytes) (p : ℤ) : Type 0 where
  pub given : conv_id ≡ request_id
  pub canonical : conv_id ≡ conv_id_for_p2p sender p
  pub parsed :
      (parse_p2p_conv request_id ≡ some (sender, p))
      ⊎ (parse_p2p_conv request_id ≡ some (p, sender))

peer-injective : {c d : Bytes} {p q : ℤ} → peer c p ≡ peer d q → (c ≡ d) × (p ≡ q)
peer-injective e = (cc, cc)

canonical-IsChat :
    (sender : ℤ) (given : Bytes) (q : ℤ) (conv_id : Bytes) (p : ℤ)
    → canonical (conv_id_for_p2p sender q) given (peer (conv_id_for_p2p sender q) q)
      ≡ some (peer conv_id p)
    → (parse_p2p_conv given ≡ some (sender, q)) ⊎ (parse_p2p_conv given ≡ some (q, sender))
    → IsChat sender given conv_id p
canonical-IsChat sender given q conv_id p h o =
    let (e, s) =
      canonical-some (conv_id_for_p2p sender q) given (peer (conv_id_for_p2p sender q) q)
        (peer conv_id p) h in
    let (c, same) = peer-injective s in
    subst (λ x. IsChat sender given conv_id x) same
      (record { given = sym c ∙ e; canonical = sym c; parsed = o })

p2p-IsChat :
    (sender : ℤ) (given : Bytes) (a b : ℤ) (conv_id : Bytes) (p : ℤ)
    → parse_p2p_conv given ≡ some (a, b)
    → p2p_target sender given (some (a, b)) ≡ some (peer conv_id p)
    → IsChat sender given conv_id p
unfolding p2p_target
p2p-IsChat sender given a b conv_id p o h = elim (Bool-cases (eq_ℤ sender a)) [
  | inl e ↦
      canonical-IsChat sender given b conv_id p (rw e at h) (inl (rw ((eq_ℤ_iff sender a).0 e) o))
  | inr e ↦ elim (Bool-cases (eq_ℤ sender b)) [
    | inl f ↦
        canonical-IsChat sender given a conv_id p (rw (e, f) at h)
          (inr (rw ((eq_ℤ_iff sender b).0 f) o))
    | inr f ↦ absurd (cc (rw (e, f) at h))
  ]
]

p2p_none : (sender : ℤ) (given : Bytes) {t : Target} → p2p_target sender given none ≡ some t → ⊥
unfolding p2p_target
p2p_none sender given h = cc

group-ne-peer :
    (given : Bytes) (o : Option ℤ) (c : Bytes) (p : ℤ) → group_target given o ≡ some (peer c p) → ⊥
unfolding group_target canonical
group-ne-peer given none c p h = cc
group-ne-peer given (some g) c p h = ground arith

resolve_peer :
    (req : SendMsgReq) (conv_id : Bytes) (p : ℤ)
    → resolve req ≡ some (peer conv_id p)
    → p2p_target req.sender_id req.conv_id (parse_p2p_conv req.conv_id) ≡ some (peer conv_id p)
unfolding resolve
resolve_peer req conv_id p h =
    ground (arith, group-ne-peer req.conv_id (parse_group_conv req.conv_id) conv_id p)

p2p_target_first :
    (a b : ℤ)
    → p2p_target a (conv_id_for_p2p a b) (some (a, b)) ≡ some (peer (conv_id_for_p2p a b) b)
unfolding p2p_target
p2p_target_first a b = rw (eq_ℤ_refl a) (canonical_self (conv_id_for_p2p a b) _)

p2p_target_second :
    (a b : ℤ)
    → a ≢ b
    → p2p_target a (conv_id_for_p2p a b) (some (b, a)) ≡ some (peer (conv_id_for_p2p a b) b)
unfolding p2p_target
p2p_target_second a b ne = elim (Bool-cases (eq_ℤ a b)) [
  | inl e ↦ absurd (ne ((eq_ℤ_iff a b).0 e))
  | inr e ↦ rw (e, eq_ℤ_refl a) (canonical_self (conv_id_for_p2p a b) _)
]

p2p_target_other :
    (a b : ℤ)
    → IsInt64 a
    → IsInt64 b
    → a ≢ b
    → p2p_target a (conv_id_for_p2p a b) (parse_p2p_conv (conv_id_for_p2p a b))
      ≡ some (peer (conv_id_for_p2p a b) b)
p2p_target_other a b ha hb ne = elim (Bool-cases (ltb_ℤ b a)) [
  | inl h ↦ rw (parse-conv_id_for_p2p a b ha hb ne, h) (p2p_target_second a b ne)
  | inr h ↦ rw (parse-conv_id_for_p2p a b ha hb ne, h) (p2p_target_first a b)
]

-- A request that resolves to a single chat names its own canonical conversation id, and the
-- conversation's two members are the sender and the peer.
pub resolve-IsChat :
    (req : SendMsgReq) (conv_id : Bytes) (p : ℤ)
    → resolve req ≡ some (peer conv_id p)
    → IsChat req.sender_id req.conv_id conv_id p
resolve-IsChat req conv_id p h =
    let chat = resolve_peer req conv_id p h in
    elim (Option-cases (parse_p2p_conv req.conv_id)) [
      | inl o ↦ absurd (p2p_none req.sender_id req.conv_id (rw o at chat))
      | inr ((a, b), o) ↦ p2p-IsChat req.sender_id req.conv_id a b conv_id p o (rw o at chat)
    ]

-- A request with valid parameters to the canonical conversation of its sender and a different
-- int64 uid resolves to that uid.
pub resolve_chat :
    (req : SendMsgReq) (p : ℤ)
    → valid_params req ≡ true
    → req.conv_type ≡ conv_type_p2p
    → IsInt64 req.sender_id
    → IsInt64 p
    → req.sender_id ≢ p
    → req.conv_id ≡ conv_id_for_p2p req.sender_id p
    → resolve req ≡ some (peer req.conv_id p)
unfolding resolve
resolve_chat req p v ty hs hp ne c =
    rw (v, ty)
      (subst (λ id. p2p_target req.sender_id id (parse_p2p_conv id) ≡ some (peer id p)) (sym c)
        (p2p_target_other req.sender_id p hs hp ne))
