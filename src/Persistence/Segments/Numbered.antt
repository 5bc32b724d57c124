-- ===== src/Persistence/Segments/Numbered.antt =====
-- The segment manager over a directory that it has filled itself: the files are the numbered
-- segments, in order, and the last one is written to.
use ai_coding_training.Base.{
  ℕ, suc, ◌+◌, ◌<◌, ◌≤◌, ◌≡◌, refl, sym, ap, ◌∙◌, true, false, some, List, [], ◌∷◌, ◌++◌, arith,
  leb, length, length-append, Bool-cases, inl, inr, ◌⊎◌,
}
use ai_coding_training.Base.Action.{ok, raised}
use ai_coding_training.Text.{Text, text_eq_iff}
use ai_coding_training.Dict.{
  Dict, lookup, contains, insert, keys, mem-keys, keys-insert, lookup-insert,
}
use ai_coding_training.Text.Order.{sorted}
use ai_coding_training.Members.{mem}
use ai_coding_training.Persistence.Struct.{Bytes}
use ai_coding_training.Persistence.Segments.{
  Segments, too_many_segments, content, touch, segment_name, roll_segment, needs_roll,
  get_active_segment, scan_existing_segments, open_segments, matching, last_or,
}
use ai_coding_training.Persistence.Segments.Names.{
  names, length-names, mem-names, matching-names, sorted-names, last_or-snoc,
}

-- With `count` segments before the active one, which holds the bytes.
pub record Numbered (s : Segments) (count : ℕ) (bs : Bytes) : Type 0 where
  pub few : count < 100
  pub limit : s.max_segments ≡ 100
  pub named : s.segments ≡ names (suc count)
  pub listed : keys s.files ≡ names (suc count)
  pub writes : s.active ≡ some (segment_name (suc count))
  pub holds : lookup (segment_name (suc count)) s.files ≡ some bs
  pub size : s.active_size ≡ length bs

-- The manager after a roll, which has made the next segment.
unfoldable pub rolled : ℕ → Segments → Segments
rolled count s = record s {
  files = insert (segment_name (suc (suc count))) [] s.files;
  active = some (segment_name (suc (suc count)));
  active_size = 0;
  segments = s.segments ++ segment_name (suc (suc count)) ∷ [];
}

-- The manager after a write of some bytes to the active segment, whose content they follow.
unfoldable pub extended : ℕ → Bytes → Bytes → Segments → Segments
extended count bs more s = record s {
  files = insert (segment_name (suc count)) (bs ++ more) s.files;
  active_size = s.active_size + length more;
}

roll_segment_room :
    (s : Segments) (name : Text)
    → leb s.max_segments (length s.segments) ≡ false
    → segment_name (length s.segments + 1) ≡ name
    → contains name s.files ≡ false
    → roll_segment s ≡ (
      ok tt,
      record s {
        files = insert name [] s.files;
        active = some name;
        active_size = 0;
        segments = s.segments ++ name ∷ [];
      },
    )
unfolding roll_segment touch segment_name
roll_segment_room s name l e n = rw (l, e, n) refl

snoc_cons :
    (ns : List Text) (x : Text) → (n : Text) × (rest : List Text) × (ns ++ x ∷ [] ≡ n ∷ rest)
snoc_cons [] x = (x, [], refl)
snoc_cons (n ∷ ns) x = (n, ns ++ x ∷ [], refl)

-- The manager of a directory in which segments are found.
unfoldable resumed : ℕ → Dict Bytes → Text → List Text → Segments
resumed size files n ns = record {
  max_segment_size = size;
  max_segments = 100;
  active = some (last_or n ns);
  active_size = length (content (last_or n ns) files);
  segments = n ∷ ns;
  files = files;
}

resumed_same :
    (s : Segments) (n : Text) (ns : List Text)
    → s.max_segments ≡ 100
    → s.active ≡ some (last_or n ns)
    → s.active_size ≡ length (content (last_or n ns) s.files)
    → s.segments ≡ n ∷ ns
    → resumed s.max_segment_size s.files n ns ≡ s
unfolding resumed
resumed_same s n ns l a z m i = record {
  max_segment_size = s.max_segment_size;
  max_segments = sym l i;
  active = sym a i;
  active_size = sym z i;
  segments = sym m i;
  files = s.files;
}

scan_found :
    (size : ℕ) (files : Dict Bytes) (n : Text) (ns : List Text)
    → sorted (matching (keys files)) ≡ n ∷ ns
    → open_segments size 100 files ≡ (ok tt, resumed size files n ns)
unfolding open_segments scan_existing_segments resumed
scan_found size files n ns e = ground arith

module _ (s : Segments) (count : ℕ) (bs : Bytes) (h : Numbered s count bs) where
  next_absent : contains (segment_name (suc (suc count))) s.files ≡ false
  next_absent =
      sym (mem-keys (segment_name (suc (suc count))) s.files)
      ∙ ap (λ (ns : List Text). mem (segment_name (suc (suc count))) ns) h.listed
      ∙ mem-names (suc count)

  active_there : contains (segment_name (suc count)) s.files ≡ true
  unfolding contains
  active_there = rw (h.holds, contains) refl

  pub rolled-Numbered : suc count < 100 → Numbered (rolled count s) (suc count) []
  unfolding rolled names
  rolled-Numbered l = record {
    few = l;
    limit = h.limit;
    named = ap (λ (ns : List Text). ns ++ segment_name (suc (suc count)) ∷ []) h.named;
    listed =
        rw
          (
            keys-insert {V = Bytes} (segment_name (suc (suc count))) [] s.files,
            next_absent,
            h.listed,
          )
          refl;
    writes = refl;
    holds = ground (
      arith,
      lookup-insert {V = Bytes} (segment_name (suc (suc count))) (segment_name (suc (suc count))) []
          s.files,
      text_eq_iff (segment_name (suc (suc count))) (segment_name (suc (suc count))),
    );
    size = refl;
  }

  pub extended-Numbered : (more : Bytes) → Numbered (extended count bs more s) count (bs ++ more)
  unfolding extended
  extended-Numbered more = record {
    few = h.few;
    limit = h.limit;
    named = h.named;
    listed =
        rw (keys-insert {V = Bytes} (segment_name (suc count)) (bs ++ more) s.files, active_there)
          h.listed;
    writes = h.writes;
    holds = ground (
      arith,
      lookup-insert {V = Bytes} (segment_name (suc count)) (segment_name (suc count)) (bs ++ more)
          s.files,
      text_eq_iff (segment_name (suc count)) (segment_name (suc count)),
    );
    size = rw (h.size, length-append bs more) refl;
  }

  length-segments : length s.segments ≡ suc count
  length-segments = ap (λ (ns : List Text). length ns) h.named ∙ length-names (suc count)

  full_segments : 100 ≤ suc count → roll_segment s ≡ (raised (too_many_segments (suc count)), s)
  unfolding roll_segment
  full_segments l = rw (length-segments, h.limit) (ground arith)

  roll_segment-rolled : suc count < 100 → roll_segment s ≡ (ok tt, rolled count s)
  unfolding roll_segment rolled touch
  roll_segment-rolled l =
      let name : length s.segments + 1 ≡ suc (suc count) = omega (arith, length-segments) in
      roll_segment_room s (segment_name (suc (suc count)))
        (rw (length-segments, h.limit) (ground arith)) (ap segment_name name) next_absent

  -- The active segment is the one that is written to, or the next one, which is made, or none, when
  -- the active segment is full and there are a hundred.
  pub get_active_segment-cases :
      (get_active_segment s ≡ (ok (segment_name (suc count)), s))
      ⊎ (((suc count < 100)
            × (get_active_segment s ≡ (ok (segment_name (suc (suc count))), rolled count s)))
          ⊎ (get_active_segment s ≡ (raised (too_many_segments (suc count)), s)))
  unfolding get_active_segment rolled
  get_active_segment-cases = elim (Bool-cases (needs_roll s)) [
    | inr stays ↦ inl (rw (stays, h.writes) refl)
    | inl rolls ↦ elim (Bool-cases (leb 100 (suc count))) [
      | inl full ↦ let e = full_segments (ground arith) in inr (inr (ground arith))
      | inr room ↦
          let less : suc count < 100 = ground arith in
          let e = roll_segment-rolled less in inr (inl (less, ground arith))
    ]
  ]

  -- Opening the directory again, for segments of any size, finds the manager as it was.
  pub open_segments-Numbered :
      (size : ℕ) → open_segments size 100 s.files ≡ (ok tt, record s { max_segment_size = size })
  open_segments-Numbered size =
      let (n, ns, e) = snoc_cons (names count) (segment_name (suc count)) in
      let all_names : names (suc count) ≡ n ∷ ns = unfold names in e in
      let found : sorted (matching (keys s.files)) ≡ n ∷ ns =
        rw (h.listed, matching-names (suc count), sorted-names count h.few) all_names in
      let last : last_or n ns ≡ segment_name (suc count) =
        ap (λ (l : List Text). last_or [] l) (sym e)
        ∙ last_or-snoc [] (segment_name (suc count)) (names count) in
      let held : content (last_or n ns) s.files ≡ bs = rw (last, h.holds, content) refl in
      scan_found size s.files n ns found
      ∙ ap (λ (s' : Segments). (ok tt, s'))
          (resumed_same (record s { max_segment_size = size }) n ns h.limit
            (h.writes ∙ ap some (sym last)) (h.size ∙ ap (λ (b : Bytes). length b) (sym held))
            (h.named ∙ all_names))

-- The manager of an empty directory, which has made the first segment.
pub open_segments-empty : (size : ℕ) → Numbered (open_segments size 100 []).1 0 []
unfolding open_segments scan_existing_segments matching sorted roll_segment touch names keys lookup
    contains insert
open_segments-empty size = record {
  few = omega arith;
  limit = refl;
  named = refl;
  listed = refl;
  writes = refl;
  holds = ground (arith, text_eq_iff (segment_name 1) (segment_name 1));
  size = refl;
}
