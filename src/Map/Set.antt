-- ===== src/Map/Set.antt =====
-- `Map_set_` and `Map_get_` (src/map.c) together.
use cyntatic.Prelude.{
  ℕ, ◌+◌, ◌*◌, ◌%◌, ◌^◌, ◌<◌, ◌≤◌, ◌≡◌, ◌≢◌, refl, ap, sym, ◌∙◌, inl, inr, true, false, Option,
  some, none, List, [], ◌∷◌, ltb, leb, ◌==◌, if◌then◌else◌, arith, All, Bool-cases, Option-cases,
  of_some_eq, ==_refl, eq_of_==, if_true, if_false,
}
use cyntatic.Word.{u32_mod}
use cyntatic.Map.{
  Node, Base, hash_string, bucket_idx, same_start, add_node, chain, resize, matches, first_match,
  bucket_of, get_ref, replace_match, move_all, with_bucket, new_node, add_new, set, get,
}
use cyntatic.Map.Chains.{
  of_hash, first_match-of_hash, IsValid, of_hash-add_node, of_hash-resized, resized, add_all-count,
}

same_start_refl : (k : List ℕ) → same_start k k ≡ true
unfolding same_start
same_start_refl [] = refl
same_start_refl (c ∷ k) = rw (==_refl c, same_start_refl k)

differs : (a b : ℕ) → a ≢ b → (a == b) ≡ false
differs a b ne = elim (Bool-cases (a == b)) [ inl e ↦ absurd (ne (eq_of_== a b e)) | inr e ↦ e ]

module _ {ℓ} {V : Type ℓ} where
  matches-new_node : (key : List ℕ) (v : V) → matches key (new_node key v) ≡ true
  unfolding matches new_node
  matches-new_node key v = rw (==_refl (hash_string key), same_start_refl key)

  first_match-replace_match :
      (key : List ℕ) (v : V) (ns : List (Node V)) {n : Node V}
      → first_match key ns ≡ some n
      → first_match key (replace_match key v ns) ≡ some (record n { value = v })
  unfolding first_match replace_match matches
  first_match-replace_match key v [] e = cc
  first_match-replace_match key v (a ∷ ns) {n} e = elim (Bool-cases (matches key a)) [
    | inl y ↦
        let step : replace_match key v (a ∷ ns) ≡ record a { value = v } ∷ ns = if_true _ y in
        let found : some a ≡ some n = sym (if_true _ y) ∙ e in
        of_some_eq
          (λ n. first_match key (replace_match key v (a ∷ ns)) ≡ some (record n { value = v }))
          found (ap (first_match key) step ∙ if_true _ y)
    | inr z ↦
        let step : replace_match key v (a ∷ ns) ≡ a ∷ replace_match key v ns = if_false _ z in
        ap (first_match key) step
        ∙ if_false _ z
        ∙ first_match-replace_match key v ns (sym (if_false _ z) ∙ e)
  ]

  matches-hash : (key : List ℕ) (n : Node V) → matches key n ≡ true → n.hash ≡ hash_string key
  unfolding matches
  matches-hash key n y = elim (Bool-cases (n.hash == hash_string key)) [
    | inl e ↦ eq_of_== n.hash (hash_string key) e
    | inr e ↦ absurd (cc (rw e at y))
  ]

  of_hash-replace_match :
      (key : List ℕ) (v : V) (h : ℕ) (ns : List (Node V))
      → hash_string key ≢ h
      → of_hash h (replace_match key v ns) ≡ of_hash h ns
  unfolding replace_match of_hash
  of_hash-replace_match key v h [] ne = refl
  of_hash-replace_match key v h (a ∷ ns) ne = elim (Bool-cases (matches key a)) [
    | inl y ↦
        let step : replace_match key v (a ∷ ns) ≡ record a { value = v } ∷ ns = if_true _ y in
        let other : (a.hash == h) ≡ false =
          differs a.hash h (λ e. ne (sym (matches-hash key a y) ∙ e)) in
        ap (of_hash h) step ∙ if_false _ other ∙ sym (if_false _ other)
    | inr z ↦
        let step : replace_match key v (a ∷ ns) ≡ a ∷ replace_match key v ns = if_false _ z in
        ap (of_hash h) step
        ∙ ap (λ r. if a.hash == h then a ∷ r else r) (of_hash-replace_match key v h ns ne)
  ]

  value_of : Option (Node V) → Option V
  value_of (some n) = some n.value
  value_of none = none

  get-value_of : (m : Base V) (key : List ℕ) → get m key ≡ value_of (get_ref m key)
  unfolding get value_of
  get-value_of m key = elim (Option-cases (get_ref m key)) [
    | inl e ↦ rw (e, get)
    | inr (n, e) ↦ rw (e, get)
  ]

  -- A look-up in a map with buckets.
  get_ref-first_match :
      (m : Base V) (key : List ℕ)
      → 0 < m.bucket_count
      → get_ref m key ≡ first_match key (bucket_of m key)
  unfolding get_ref
  get_ref-first_match m key h = let t : ltb 0 m.bucket_count ≡ true = ground arith in if_true _ t

  -- A valid map without buckets holds nothing.
  no_nodes :
      (key : List ℕ) (count i : ℕ) (ns : List (Node V))
      → count ≤ 0
      → All (λ n. (bucket_idx count n.hash ≡ i) × (i < count)) ns
      → first_match key ns ≡ none
  unfolding first_match
  no_nodes key count i [] h a = refl
  no_nodes key count i (n ∷ ns) h ((b, c), a) = absurd (omega arith)

  first_match-empty :
      (m : Base V) (key : List ℕ)
      → IsValid m
      → m.bucket_count ≤ 0
      → first_match key (bucket_of m key) ≡ none
  first_match-empty m key w h =
      let i = bucket_idx m.bucket_count (hash_string key) in
      no_nodes key m.bucket_count i (m.buckets i) h (w i)

  get_ref-valid :
      (m : Base V) (key : List ℕ) → IsValid m → get_ref m key ≡ first_match key (bucket_of m key)
  unfolding get_ref
  get_ref-valid m key w = elim (Bool-cases (ltb 0 m.bucket_count)) [
    | inl t ↦ if_true _ t
    | inr f ↦ if_false _ f ∙ sym (first_match-empty m key w (ground arith))
  ]

  -- Two maps that hold the same nodes of a key's hash look alike to it.
  get_congr :
      (m m' : Base V) (key : List ℕ)
      → IsValid m
      → 0 < m'.bucket_count
      → of_hash (hash_string key) (bucket_of m' key) ≡ of_hash (hash_string key) (bucket_of m key)
      → get m' key ≡ get m key
  get_congr m m' key w h e =
      get-value_of m' key
      ∙ ap value_of (
          get_ref-first_match m' key h
          ∙ sym (first_match-of_hash key (bucket_of m' key))
          ∙ ap (first_match key) e
          ∙ first_match-of_hash key (bucket_of m key)
          ∙ sym (get_ref-valid m key w))
      ∙ sym (get-value_of m key)

  -- The key set, and the keys of other hashes.
  abbrev pub Stored : Base V → List ℕ → V → Base V → Type ℓ
  Stored m key v m' =
      (get m' key ≡ some v)
      × ((other : List ℕ) → hash_string other ≢ hash_string key → get m' other ≡ get m other)

  replaced-Stored :
      (m : Base V) (key : List ℕ) (v : V) {n : Node V}
      → IsValid m
      → get_ref m key ≡ some n
      → Stored m key v (with_bucket m key (replace_match key v (bucket_of m key)))
  unfolding get_ref value_of
  replaced-Stored m key v {n} w e = elim (Bool-cases (ltb 0 m.bucket_count)) [
    | inr f ↦ absurd (cc (sym (if_false _ f) ∙ e))
    | inl t ↦
        let m' = with_bucket m key (replace_match key v (bucket_of m key)) in
        let idx = bucket_idx m.bucket_count in
        let here : bucket_of m' key ≡ replace_match key v (bucket_of m key) =
          if_true _ (==_refl (idx (hash_string key))) in
        (
          get-value_of m' key
              ∙ ap value_of (
                  if_true _ t
                  ∙ ap (first_match key) here
                  ∙ first_match-replace_match key v (bucket_of m key) (sym (if_true _ t) ∙ e)),
          λ other ne.
              get_congr m m' other w (ground arith)
                (elim (Bool-cases (idx (hash_string other) == idx (hash_string key))) [
                  | inl same ↦
                      let at = eq_of_== (idx (hash_string other)) (idx (hash_string key)) same in
                      ap (of_hash (hash_string other)) (if_true _ same)
                      ∙ of_hash-replace_match key v (hash_string other) (bucket_of m key)
                          (λ q. ne (sym q))
                      ∙ ap (λ i. of_hash (hash_string other) (m.buckets i)) (sym at)
                  | inr far ↦ ap (of_hash (hash_string other)) (if_false _ far)
                ]),
        )
  ]

  -- A node added to a map with buckets that looks like `m`.
  abbrev put : Base V → List ℕ → V → Base V
  put r key v =
      let a = add_node r (new_node key v) in record a { node_count = (a.node_count + 1) % u32_mod }

  put-Stored :
      (m r : Base V) (key : List ℕ) (v : V)
      → IsValid m
      → 0 < r.bucket_count
      → ((h : ℕ)
          → of_hash h (r.buckets (bucket_idx r.bucket_count h))
            ≡ of_hash h (m.buckets (bucket_idx m.bucket_count h)))
      → Stored m key v (put r key v)
  unfolding add_node new_node value_of first_match of_hash
  put-Stored m r key v w h same =
      let r' = put r key v in
      let idx = bucket_idx r.bucket_count in
      let n = new_node key v in
      let here : bucket_of r' key ≡ n ∷ bucket_of r key =
        if_true _ (==_refl (idx (hash_string key))) in
      (
        get-value_of r' key
            ∙ ap value_of (
                get_ref-first_match r' key h
                ∙ ap (first_match key) here
                ∙ if_true _ (matches-new_node key v)),
        λ other ne.
            let none_new : of_hash (hash_string other) (n ∷ []) ≡ [] =
              if_false _ (differs (hash_string key) (hash_string other) (λ q. ne (sym q))) in
            get_congr m r' other w h (
              of_hash-add_node r n (hash_string other)
              ∙ ap (λ x. move_all x (of_hash (hash_string other) (bucket_of r other))) none_new
              ∙ same (hash_string other)),
      )

  -- In a valid map of fewer than 2 ^ 31 buckets, `Map_set_` succeeds when its allocations do. `Map_get_`
  -- of the key then gives the value, and of any key with another hash what it gave before, also where
  -- the nodes moved to a larger array.
  pub get-set :
      (m : Base V) (key : List ℕ) (v : V)
      → IsValid m
      → m.bucket_count < 2 ^ 31
      → (m' : Base V) × (set true true m key v ≡ some (true, m'))
        × (get m' key ≡ some v)
        × ((other : List ℕ) → hash_string other ≢ hash_string key → get m' other ≡ get m other)
  unfolding set add_new resize
  get-set m key v w small = elim (Option-cases (get_ref m key)) [
    | inr (n, e) ↦
        let (own, rest) = replaced-Stored m key v w e in
        (with_bucket m key (replace_match key v (bucket_of m key)), rw (e, set), own, rest)
    | inl e ↦ elim (Bool-cases (leb m.bucket_count m.node_count)) [
      | inr room ↦
          let (own, rest) = put-Stored m m key v w (ground arith) (λ h. refl) in
          (put m key v, rw (e, room, set, add_new), own, rest)
      | inl full ↦
          let count = if ltb m.bucket_count 32 then 32 else m.bucket_count * 2 % u32_mod in
          let r = resized m count in
          let more : 0 < count = ground arith in
          let kept : r.bucket_count ≡ count =
            add_all-count (record m { buckets = λ i. []; bucket_count = count })
              (chain m.bucket_count m.buckets []) in
          let (own, rest) = put-Stored m r key v w (omega (arith, kept)) (λ h.
            ap (λ c. of_hash h (r.buckets (bucket_idx c h))) kept ∙ of_hash-resized m count h w) in
          (put r key v, rw (e, full, set, add_new), own, rest)
    ]
  ]
