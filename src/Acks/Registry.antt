-- ===== src/Acks/Registry.antt =====
-- Dicts from message ids to message objects: each entry refers to an object that exists and whose id
-- is its key.
use ai_coding_training.Base.{
  ℕ, ◌+◌, ◌<◌, ◌≤◌, ◌≡◌, refl, sym, ap, ◌∙◌, true, false, some, [], ◌∷◌, arith, All, ◌==◌, ==_iff,
  Bool-cases, inl, inr,
}
use ai_coding_training.Text.{Text, text_eq, text_eq_refl, text_eq→eq, text_eq→ne}
use ai_coding_training.Members.{mem, Distinct}
use ai_coding_training.Dict.{
  Dict, lookup, insert, erase, keys, insert-Distinct, erase-Distinct, mem-keys, contains,
}
use ai_coding_training.Dict.Each.{Each, Each-nil, Each-insert, Each-erase}
use ai_coding_training.Models.{Message}
use ai_coding_training.Acks.{Ref, Heap, update}
use ai_coding_training.Acks.Timeouts.{Absent, DistinctRefs}

-- The object is there, and its id is the key.
abbrev pub Named : Heap → ℕ → Text → Ref → Type 0
Named h n id r = (r < n) × ((h r).msg_id ≡ id)

pub record IsRegistry (h : Heap) (n : ℕ) (d : Dict Ref) : Type 0 where
  pub distinct : Distinct (keys d)
  pub each : Each (Named h n) d

pub nil-IsRegistry : (h : Heap) (n : ℕ) → IsRegistry h n []
nil-IsRegistry h n = record { distinct = unfold keys in tt; each = Each-nil (Named h n) }

module _ (h : Heap) (n : ℕ) (d : Dict Ref) (v : IsRegistry h n d) where
  pub insert-IsRegistry : (id : Text) (r : Ref) → Named h n id r → IsRegistry h n (insert id r d)
  insert-IsRegistry id r w = record {
    distinct = insert-Distinct id r d v.distinct;
    each = Each-insert (Named h n) id r d v.each w;
  }

  pub erase-IsRegistry : (id : Text) → IsRegistry h n (erase id d)
  erase-IsRegistry id = record {
    distinct = erase-Distinct id d v.distinct;
    each = Each-erase (Named h n) id d v.each;
  }

  -- Objects that keep their ids, and more objects.
  pub grown-IsRegistry :
      (h' : Heap) (n' : ℕ)
      → n ≤ n'
      → ((r : Ref) → r < n → (h' r).msg_id ≡ (h r).msg_id)
      → IsRegistry h' n' d
  grown-IsRegistry h' n' le same = record {
    distinct = v.distinct;
    each = record {
      at = λ id r found.
          let (below, named) = v.each.at id r found in (omega arith, same r below ∙ named);
    };
  }

  -- A write to an object that leaves its id alone.
  pub update-IsRegistry :
      (r : Ref) (m : Message) → m.msg_id ≡ (h r).msg_id → IsRegistry (update r m h) n d
  unfolding update
  update-IsRegistry r m same = grown-IsRegistry (update r m h) n (omega arith) (λ q below. kept q)
    where
      kept : (q : Ref) → (update r m h q).msg_id ≡ (h q).msg_id
      kept q = elim (Bool-cases (q == r)) [
        | inl e ↦
            let here : q ≡ r = (==_iff q r).0 e in rw e (same ∙ ap (λ k. (h k).msg_id) (sym here))
        | inr e ↦ rw e refl
      ]

  -- A new object.
  pub new-IsRegistry : (m : Message) → IsRegistry (update n m h) (n + 1) d
  unfolding update
  new-IsRegistry m = grown-IsRegistry (update n m h) (n + 1) (omega arith) kept
    where
      kept : (q : Ref) → q < n → (update n m h q).msg_id ≡ (h q).msg_id
      kept q below = let e : (q == n) ≡ false = ground arith in rw e refl

lookup-first : {V : Type 0} (k : Text) (v : V) (d : Dict V) → lookup k ((k, v) ∷ d) ≡ some v
unfolding lookup
lookup-first k v d = ground (arith, text_eq_refl k)

contains-some :
    {V : Type 0} (k : Text) (v : V) (d : Dict V) → lookup k d ≡ some v → contains k d ≡ true
unfolding contains
contains-some k v d h = ground (arith, h)

lookup-rest :
    {V : Type 0} (k j : Text) (w : V) (d : Dict V)
    → text_eq j k ≡ false
    → lookup k ((j, w) ∷ d) ≡ lookup k d
unfolding lookup
lookup-rest k j w d h = rw h refl

-- A key of the rest is not that of the first entry.
other_key :
    (j k : Text) (d : Dict Ref) → mem j (keys d) ≡ false → contains k d ≡ true → text_eq j k ≡ false
other_key j k d absent there = elim (Bool-cases (text_eq j k)) [
  | inr e ↦ e
  | inl e ↦
      let same : j ≡ k = text_eq→eq j k e in
      let here : contains j d ≡ true = rw same there in absurd (let x = mem-keys j d in cc)
]

rest-Each :
    (P : Text → Ref → Type 0) (j : Text) (q : Ref) (d : Dict Ref)
    → mem j (keys d) ≡ false
    → Each P ((j, q) ∷ d)
    → Each P d
rest-Each P j q d absent e = record {
  at = λ k v found.
      e.at k v (lookup-rest k j q d (other_key j k d absent (contains-some k v d found)) ∙ found);
}

-- An entry with another key refers to another object.
other_entry :
    (h : Heap) (id j : Text) (r q : Ref)
    → (h r).msg_id ≡ id
    → (h q).msg_id ≡ j
    → text_eq j id ≡ false
    → (q == r) ≡ false
other_entry h id j r q a b ne = elim (Bool-cases (q == r)) [
  | inr e ↦ e
  | inl e ↦
      let same : q ≡ r = (==_iff q r).0 e in
      let equal : j ≡ id = sym b ∙ ap (λ k. (h k).msg_id) same ∙ a in
      absurd (text_eq→ne j id ne equal)
]

head-Absent :
    (h : Heap) (n : ℕ) (id : Text) (r : Ref) (d : Dict Ref)
    → (h r).msg_id ≡ id
    → mem id (keys d) ≡ false
    → Distinct (keys d)
    → Each (Named h n) d
    → Absent r d
unfolding keys mem
head-Absent h n id r [] named absent u e = tt
head-Absent h n id r ((j, q) ∷ d) named absent u e = (
  other_entry h id j r q named (e.at j q (lookup-first j q d)).1 (ground arith),
  head-Absent h n id r d named (ground arith) u.1 (rest-Each (Named h n) j q d u.0 e),
)

-- No two entries of a registry refer to one object.
pub IsRegistry-DistinctRefs : (h : Heap) (n : ℕ) (d : Dict Ref) → IsRegistry h n d → DistinctRefs d
unfolding keys
IsRegistry-DistinctRefs h n [] v = tt
IsRegistry-DistinctRefs h n ((id, r) ∷ d) v =
    let u = v.distinct in
    let rest = rest-Each (Named h n) id r d u.0 v.each in
    (
      head-Absent h n id r d (v.each.at id r (lookup-first id r d)).1 u.0 u.1 rest,
      IsRegistry-DistinctRefs h n d (record { distinct = u.1; each = rest }),
    )

-- Every entry of a registry refers to an object that is there.
pub IsRegistry-Below : (h : Heap) (n : ℕ) (d : Dict Ref) → IsRegistry h n d → All (λ e. e.1 < n) d
unfolding keys
IsRegistry-Below h n [] v = tt
IsRegistry-Below h n ((id, r) ∷ d) v =
    let u = v.distinct in
    let rest = rest-Each (Named h n) id r d u.0 v.each in
    (
      (v.each.at id r (lookup-first id r d)).0,
      IsRegistry-Below h n d (record { distinct = u.1; each = rest }),
    )
