-- ===== src/Client/Scopes.antt =====
-- The scopes of a key in their normal form (clientkey.go), and keys that are revoked.
use grok2api.Prelude.{
  ◌≡◌, ◌≢◌, refl, subst, ◌∙◌, Bool, true, false, ◌||◌, Option, none, some, some_injective, List, [],
  ◌∷◌, map, arith, Text, is_empty, trim_space, text_eq, text_eq_iff, text_lt, text_lt_trans,
  text_lt_total, mem, Distinct, Time, Bool-cases, inl, inr,
}
use grok2api.Client.Key.{
  normal, collect, sorted_insert, sort, sort_option, normalize_scopes, ClientKey, active, revoke,
}
use grok2api.Client.Access.{
  Repository, denied, unauthorized, check_credential, check_secret, authenticate,
}

-- Each scope comes before all that follow it, so none comes twice.
abbrev pub Ascending : List Text → Type 0
Ascending [] = Unit {0}
Ascending (s ∷ ss) = ((m : Text) → mem m ss ≡ true → text_lt s m ≡ true) × Ascending ss

mem-sorted_insert :
    (m s : Text) (ts : List Text) → mem m (sorted_insert s ts) ≡ (text_eq s m || mem m ts)
unfolding sorted_insert mem
mem-sorted_insert m s [] = refl
mem-sorted_insert m s (t ∷ ts) = ground (arith, mem-sorted_insert m s ts)

mem-sort : (m : Text) (ss : List Text) → mem m (sort ss) ≡ mem m ss
unfolding sort mem
mem-sort m [] = refl
mem-sort m (s ∷ ss) = ground (arith, mem-sorted_insert m s (sort ss), mem-sort m ss)

sorted_insert-Ascending :
    (s : Text) (ts : List Text) → mem s ts ≡ false → Ascending ts → Ascending (sorted_insert s ts)
unfolding sorted_insert mem
sorted_insert-Ascending s [] h a = (λ m e. cc, tt)
sorted_insert-Ascending s (t ∷ ts) h (first, a) = elim (Bool-cases (text_lt t s)) [
  | inl before ↦ rw before (
    (λ m e. ground (arith, mem-sorted_insert m s ts, text_eq_iff s m, first m)),
    sorted_insert-Ascending s ts (ground arith) a,
  )
  | inr after ↦ rw after (
    (λ m e. ground (arith, text_lt_total t s after, text_eq_iff t m, text_lt_trans s t m, first m)),
    (first, a),
  )
]

sort-Ascending : (ss : List Text) → Distinct ss → Ascending (sort ss)
unfolding sort
sort-Ascending [] d = tt
sort-Ascending (s ∷ ss) d =
    sorted_insert-Ascending s (sort ss) (mem-sort s ss ∙ d.0) (sort-Ascending ss d.1)

collect-Distinct :
    (result scopes out : List Text)
    → collect result scopes ≡ some out
    → Distinct result
    → Distinct out
unfolding collect
collect-Distinct result [] out e d = subst Distinct (some_injective e) d
collect-Distinct result (s ∷ rest) out e d = elim (Bool-cases (mem (normal s) result)) [
  | inl seen ↦ collect-Distinct result rest out (ground arith) d
  | inr new ↦ collect-Distinct (normal s ∷ result) rest out (ground arith) (new, d)
]

mem-collect :
    (m : Text) (result scopes out : List Text)
    → collect result scopes ≡ some out
    → (mem m out ≡ (mem m result || mem m (map normal scopes)))
unfolding collect mem
mem-collect m result [] out e = ground (arith, some_injective e)
mem-collect m result (s ∷ rest) out e = ground (
  arith,
  mem-collect m result rest out,
  mem-collect m (normal s ∷ result) rest out,
  text_eq_iff (normal s) m,
)

-- No scope of the outcome is empty.
collect-nonempty :
    (result scopes out : List Text)
    → collect result scopes ≡ some out
    → mem [] result ≡ false
    → mem [] out ≡ false
unfolding collect mem is_empty
collect-nonempty result [] out e h = ground (arith, some_injective e)
collect-nonempty result (s ∷ rest) out e h = elim (Bool-cases (mem (normal s) result)) [
  | inl seen ↦ collect-nonempty result rest out (ground arith) h
  | inr new ↦
      collect-nonempty (normal s ∷ result) rest out (ground arith) (named (normal s) (ground arith))
]
  where
    named : (t : Text) → is_empty t ≡ false → mem [] (t ∷ result) ≡ false
    named [] k = cc
    named (c ∷ cs) k = unfold text_eq in h

-- The scopes of a key come out in strictly ascending order, none twice and none empty, and are
-- exactly the normal forms of the ones that came in.
pub normalize_scopes-Ascending :
    (scopes out : List Text)
    → normalize_scopes scopes ≡ some out
    → Ascending out × (mem [] out ≡ false) × ((m : Text) → mem m out ≡ mem m (map normal scopes))
unfolding normalize_scopes sort_option mem
normalize_scopes-Ascending scopes out e = by_collected (collect [] scopes) refl e
  where
    by_collected :
        (o : Option (List Text))
        → collect [] scopes ≡ o
        → sort_option o ≡ some out
        → Ascending out
          × (mem [] out ≡ false)
          × ((m : Text) → mem m out ≡ mem m (map normal scopes))
    by_collected none c h = cc
    by_collected (some ss) c h =
        subst
          (λ r.
            Ascending r × (mem [] r ≡ false) × ((m : Text) → mem m r ≡ mem m (map normal scopes)))
          (some_injective h)
          (
            sort-Ascending ss (collect-Distinct [] scopes ss c tt),
            mem-sort [] ss ∙ collect-nonempty [] scopes ss c refl,
            λ m. mem-sort m ss ∙ mem-collect m [] scopes ss c,
          )

-- A key stays revoked: whoever brings the secret by which the store finds it is refused at any
-- time, whenever its expiry, and a later revocation keeps the time of the first. The times are set,
-- and the store can read its policy.
pub revoke-authenticate :
    (at later again : Time) (k : ClientKey) (scopes : List Text) (required : Bool)
    (sha256 : Text → Text) (repo : Repository) (secret : Text)
    → at ≢ 0
    → again ≢ 0
    → later ≢ 0
    → is_empty (trim_space secret) ≡ false
    → repo.auth_required ≡ some required
    → repo.find_by_hash (sha256 (trim_space secret))
      ≡ some (some (record { key = (revoke at k).0; scopes = scopes }))
    → (authenticate sha256 repo later secret ≡ denied unauthorized)
      × ((revoke again (revoke at k).0).0 ≡ (revoke at k).0)
unfolding authenticate check_secret check_credential active revoke
revoke-authenticate at later again k scopes required sha256 repo secret a b l h r f =
    (ground arith, ground arith)
