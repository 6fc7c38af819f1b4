-- ===== src/Marketplace/Search.antt =====
-- Which services a search finds.
use go_blockchain.Prelude.{
  ◌≡◌, refl, subst, ltb_ℤ, sym, ap, ◌∙◌, ◌↔◌, ◌⊎◌, inl, inr, Bool, true, false, ◌&&◌, ◌||◌, not,
  List, [], ◌∷◌, ◌++◌, arith, ◌==◌, ℤ, pos, ◌≤ℤ◌, Bytes, bytes_equal, bytes_equal→eq,
  bytes_equal_refl, length, Bool-cases, if◌then◌else◌, and_true, ==_iff, ==_refl,
}
use go_blockchain.Indexer.{IndexStore, AgentService, list_services}
use go_blockchain.Marketplace.{SearchFilter, has_prefix, contains, is_match, search_among, search}

-- `sub` stands somewhere in `s`.
abbrev pub Occurs : Bytes → Bytes → Type 0
Occurs s sub = (before : Bytes) × (after : Bytes) × (s ≡ before ++ (sub ++ after))

has_prefix-found : (sub s : Bytes) → has_prefix sub s ≡ true → (after : Bytes) × (s ≡ sub ++ after)
unfolding has_prefix
has_prefix-found [] s h = (s, refl)
has_prefix-found (a ∷ sub) [] h = absurd cc
has_prefix-found (a ∷ sub) (b ∷ s) h =
    let (same, rest) = and_true (a == b) (has_prefix sub s) h in
    let (after, e) = has_prefix-found sub s rest in (after, cc (e, (==_iff a b).0 same))

has_prefix-append : (sub after : Bytes) → has_prefix sub (sub ++ after) ≡ true
unfolding has_prefix
has_prefix-append [] after = refl
has_prefix-append (a ∷ sub) after = rw (==_refl a, has_prefix-append sub after) refl

contains-found : (s sub : Bytes) → contains s sub ≡ true → Occurs s sub
unfolding contains
contains-found [] sub h = let (after, e) = has_prefix-found sub [] h in ([], after, e)
contains-found (b ∷ s) sub h = elim (Bool-cases (has_prefix sub (b ∷ s))) [
  | inl e ↦ let (after, same) = has_prefix-found sub (b ∷ s) e in ([], after, same)
  | inr e ↦
      let (before, after, same) = contains-found s sub (rw e at h) in
      (b ∷ before, after, ap (λ l. b ∷ l) same)
]

contains-append : (before sub after : Bytes) → contains (before ++ (sub ++ after)) sub ≡ true
unfolding contains
contains-append [] sub after = start (sub ++ after) (has_prefix-append sub after)
  where
    start : (s : Bytes) → has_prefix sub s ≡ true → contains s sub ≡ true
    start [] h = h
    start (b ∷ s) h = rw h refl
contains-append (b ∷ before) sub after = let rest = contains-append before sub after in ground arith

pub contains_iff : (s sub : Bytes) → (contains s sub ≡ true) ↔ Occurs s sub
contains_iff s sub = (
  contains-found s sub,
  λ found. let (before, after, e) = found in rw e (contains-append before sub after),
)

abbrev pub IsAmong : AgentService → List AgentService → Type 0
IsAmong srv [] = ⊥
IsAmong srv (x ∷ xs) = (x ≡ srv) ⊎ IsAmong srv xs

three_tests :
    (a b c : Bool)
    → ((if a then false else if b then false else if c then false else true) ≡ true)
      ↔ ((a ≡ false) × (b ≡ false) × (c ≡ false))
three_tests true b c = ((λ h. absurd cc), λ h. absurd cc)
three_tests false true c = ((λ h. absurd cc), λ h. absurd cc)
three_tests false false true = ((λ h. absurd cc), λ h. absurd cc)
three_tests false false false = ((λ h. (refl, refl, refl)), λ h. refl)

price_iff :
    (limit price : ℤ)
    → ((ltb_ℤ (pos 0) limit && ltb_ℤ limit price) ≡ false) ↔ ((limit ≤ℤ pos 0) ⊎ (price ≤ℤ limit))
price_iff limit price = (
  λ h. elim (Bool-cases (ltb_ℤ (pos 0) limit)) [
    | inl e ↦ inr (ground arith)
    | inr e ↦ inl (ground arith)
  ],
  elim [ inl low ↦ ground arith | inr under ↦ ground arith ],
)

empty_iff : (t : Bytes) → ((length t == 0) ≡ true) ↔ (t ≡ [])
empty_iff [] = ((λ h. refl), λ h. refl)
empty_iff (x ∷ t) = ((λ h. absurd (ground arith)), λ h. absurd cc)

bytes_equal_iff : (a b : Bytes) → (bytes_equal a b ≡ true) ↔ (a ≡ b)
bytes_equal_iff a b = (bytes_equal→eq a b, λ e. rw e (bytes_equal_refl b))

-- A test that an empty text switches off.
unless_iff {ℓ} :
    {P : Type ℓ} (t : Bytes) (b : Bool)
    → (b ≡ true) ↔ P
    → ((not (length t == 0) && not b) ≡ false) ↔ ((t ≡ []) ⊎ P)
unless_iff t b means = (
  λ h. elim (Bool-cases (length t == 0)) [
    | inl e ↦ inl ((empty_iff t).0 e)
    | inr e ↦ inr (means.0 (ground arith))
  ],
  elim [
    | inl e ↦ let off = (empty_iff t).1 e in ground arith
    | inr p ↦ let on = means.1 p in ground arith
  ],
)

either_iff :
    (a b : Bool) {P Q : Type 0} → (a ≡ true) ↔ P → (b ≡ true) ↔ Q → ((a || b) ≡ true) ↔ (P ⊎ Q)
either_iff true b p q = ((λ h. inl (p.0 refl)), λ h. refl)
either_iff false b p q =
    (λ h. inr (q.0 h), elim [ inl x ↦ absurd (differ (p.1 x)) | inr y ↦ q.1 y ])
  where
    differ : false ≡ true → ⊥
    differ e = cc

not_either : (a b : Bool) → not (a || b) ≡ (not a && not b)
not_either true b = refl
not_either false b = refl

module _ (to_lower : Bytes → Bytes) (filter : SearchFilter) where
  -- What a filter asks for; a price of zero or less, and an empty text, ask for nothing.
  pub record Matches (srv : AgentService) : Type 0 where
    pub price : (filter.max_price ≤ℤ pos 0) ⊎ (srv.price_per_call ≤ℤ filter.max_price)
    pub address : (filter.agent_address ≡ []) ⊎ (srv.agent_address ≡ filter.agent_address)
    pub words :
        (to_lower filter.query ≡ [])
        ⊎ (Occurs (to_lower srv.name) (to_lower filter.query)
            ⊎ Occurs (to_lower srv.description) (to_lower filter.query))

  is_match_iff : (srv : AgentService) → (is_match to_lower filter srv ≡ true) ↔ Matches srv
  unfolding is_match
  is_match_iff srv =
      let query = to_lower filter.query in
      let in_name = contains (to_lower srv.name) query in
      let in_description = contains (to_lower srv.description) query in
      let price = price_iff filter.max_price srv.price_per_call in
      let address =
        unless_iff filter.agent_address (bytes_equal srv.agent_address filter.agent_address)
          (bytes_equal_iff srv.agent_address filter.agent_address) in
      let words = unless_iff query (in_name || in_description) (
        either_iff in_name in_description (contains_iff (to_lower srv.name) query)
          (contains_iff (to_lower srv.description) query)) in
      let split = ap (λ b. not (length query == 0) && b) (not_either in_name in_description) in
      let tests =
        three_tests (ltb_ℤ (pos 0) filter.max_price && ltb_ℤ filter.max_price srv.price_per_call)
          (not (length filter.agent_address == 0)
            && not (bytes_equal srv.agent_address filter.agent_address))
          (not (length query == 0) && (not in_name && not in_description)) in
      (
        λ h.
            let (a, b, d) = tests.0 h in
            record { price = price.0 a; address = address.0 b; words = words.0 (split ∙ d) },
        λ m. tests.1 (price.1 m.price, address.1 m.address, sym split ∙ words.1 m.words),
      )

  search_among_iff :
      (srvs : List AgentService) (srv : AgentService)
      → IsAmong srv (search_among to_lower filter srvs) ↔ (IsAmong srv srvs × Matches srv)
  unfolding search_among
  search_among_iff [] srv = ((λ h. absurd h), λ h. h.0)
  search_among_iff (x ∷ rest) srv =
      let found = search_among_iff rest srv in
      elim (Bool-cases (is_match to_lower filter x)) [
        | inl e ↦ rw e (
          elim [
            | inl same ↦ (inl same, subst Matches same ((is_match_iff x).0 e))
            | inr among ↦ let (a, m) = found.0 among in (inr a, m)
          ],
          λ p. elim (p.0) [ inl same ↦ inl same | inr among ↦ inr (found.1 (among, p.1)) ],
        )
        | inr e ↦ rw e (
          λ among. let (a, m) = found.0 among in (inr a, m),
          λ p. elim (p.0) [
            | inl same ↦ absurd (missed e ((is_match_iff x).1 (subst Matches (sym same) p.1)))
            | inr among ↦ found.1 (among, p.1)
          ],
        )
      ]
    where
      missed : {b : Bool} → b ≡ false → b ≡ true → ⊥
      missed e f = cc

  -- A search finds exactly the services that the store lists as active and that match the filter: not
  -- dearer than its price, of its agent, and with its words, as lower case, in the name or in the
  -- description; a price of zero or less, no agent and no words ask for nothing.
  pub search_iff :
      (store : IndexStore) (srv : AgentService)
      → IsAmong srv (search to_lower filter store)
        ↔ (IsAmong srv (list_services store) × Matches srv)
  unfolding search
  search_iff store srv = search_among_iff (list_services store) srv
