-- ===== src/Persistence/Log/Reopen.antt =====
-- What a restart recovers from the index that the last `close` saved.
use ai_coding_training.Base.{
  ℕ, suc, ◌≤◌, ◌≡◌, refl, sym, ap, ◌∙◌, Bool, Option, none, some, List, [], ◌∷◌, map, arith, length,
}
use ai_coding_training.Base.Action.{Outcome, ok, raised}
use ai_coding_training.Text.{Text, text_eq_iff}
use ai_coding_training.Dict.{Dict, lookup, contains, lookup-insert}
use ai_coding_training.Models.{Message}
use ai_coding_training.Persistence.Struct.{Bytes, CodecError}
use ai_coding_training.Persistence.Codec.{serialize}
use ai_coding_training.Persistence.Codec.RoundTrip.{persisted, HasTexts}
use ai_coding_training.Persistence.Segments.{segment_name, touch, roll_segment, open_segments}
use ai_coding_training.Persistence.Log.{
  Layer, Location, entries, read_at, read_entries, collect, index_recover, recover, close,
  open_layer,
}
use ai_coding_training.Persistence.Log.Stored.{At, read_at-here}

-- Each entry of the index is the place of the message beside it.
abbrev pub Indexes : Dict Location → Dict Bytes → List Message → Type 0
Indexes [] files ms = ms ≡ []
Indexes ((k, loc) ∷ d) files ms =
    (m : Message) × (later : List Message) × (file : Bytes) × (bs : Bytes) × (ms ≡ m ∷ later)
    × (lookup loc.0 files ≡ some file)
    × (serialize m ≡ some bs)
    × At bs loc.1 file
    × HasTexts m
    × Indexes d files later

read_entries-Indexes :
    (d : Dict Location) (l : Layer) (files : Dict Bytes) (ms : List Message)
    → ((n : Text) (file : Bytes)
        → lookup n files ≡ some file
        → lookup n l.segment_mgr.files ≡ some file)
    → Indexes d files ms
    → read_entries d l ≡ ok (map persisted ms)
unfolding read_entries
read_entries-Indexes [] l files ms keep e = rw e
read_entries-Indexes ((k, (segment, offset)) ∷ d) l files ms keep
      (m, later, file, bs, e, f, w, a, t, rest) =
    rw (
      e,
      read_at-here m segment offset file bs l (keep segment file f) w t a,
      read_entries-Indexes d l files later keep rest,
    )

-- Opening the segments changes no file that is there.
open_segments-files :
    (size count : ℕ) (files : Dict Bytes) (n : Text) (file : Bytes)
    → lookup n files ≡ some file
    → lookup n (open_segments size count files).1.files ≡ some file
unfolding open_segments roll_segment touch contains
open_segments-files size count files n file h =
    let name = segment_name 1 in
    ground (arith, lookup-insert {V = Bytes} name n [] files, text_eq_iff name n)

index_recover-saved :
    (l : Layer) (d : Dict Location) → l.saved ≡ entries d → index_recover l ≡ record l { index = d }
unfolding index_recover
index_recover-saved l d e = ground arith

-- A saved index with an entry takes the place of the index, and the segments are not scanned.
recover-saved :
    (l : Layer) (x : Text × Location) (d : Dict Location)
    → l.saved ≡ entries (x ∷ d)
    → (recover l).0 ≡ read_entries (x ∷ d) (record l { index = x ∷ d })
unfolding recover
recover-saved l x d e =
    let s : index_recover l ≡ record l { index = x ∷ d } = index_recover-saved l (x ∷ d) e in
    rw (s, recover) (ap (λ (l' : Layer). read_entries (x ∷ d) l') s)

-- After a `close` with an index that has an entry, and in which every entry is the place of a
-- message, the next start recovers these messages, in the order of the index, each as it was
-- written and pending.
pub recover-close :
    (l : Layer) (ms : List Message) (size now later interval : ℕ) (on_write : Bool)
    → (k : Text) (loc : Location) (d : Dict Location) → l.index ≡ (k, loc) ∷ d
    → Indexes l.index l.segment_mgr.files ms
    → let closed = close now l in
      (recover (open_layer size on_write interval later closed.segment_mgr.files closed.saved).1).0
      ≡ ok (map persisted ms)
unfolding close open_layer
recover-close l ms size now later interval on_write k loc d e h =
    let files = l.segment_mgr.files in
    let l' = (open_layer size on_write interval later files (entries l.index)).1 in
    recover-saved l' (k, loc) d (ap entries e)
    ∙ read_entries-Indexes ((k, loc) ∷ d) (record l' { index = (k, loc) ∷ d }) files ms
        (λ n file q. open_segments-files size 100 files n file q) (rw e at h)

collect-length :
    (o : Outcome CodecError (Option Message)) (r : Outcome CodecError (List Message)) (n : ℕ)
    (ms : List Message)
    → ((ns : List Message) → r ≡ ok ns → length ns ≤ n)
    → collect o r ≡ ok ms
    → length ms ≤ suc n
collect-length (raised e) r n ms h p = cc
collect-length (ok none) r n ms h p = omega (arith, h ms p)
collect-length (ok (some m)) (ok ns) n ms h p = ground (arith, h ns refl)
collect-length (ok (some m)) (raised e) n ms h p = cc

length-read_entries :
    (d : Dict Location) (l : Layer) (ms : List Message)
    → read_entries d l ≡ ok ms
    → length ms ≤ length d
unfolding read_entries
length-read_entries [] l ms p = ground arith
length-read_entries ((k, (segment, offset)) ∷ d) l ms p =
    collect-length (read_at segment offset l) (read_entries d l) (length d) ms
      (λ ns q. length-read_entries d l ns q) p

-- With an entry in the saved index, recovery returns at most one message for each saved entry,
-- whatever the segments hold.
pub length-recover_saved :
    (l : Layer) (k : Text) (loc : Location) (d : Dict Location) (ms : List Message)
    → l.saved ≡ entries ((k, loc) ∷ d)
    → (recover l).0 ≡ ok ms
    → length ms ≤ length ((k, loc) ∷ d)
length-recover_saved l k loc d ms e p =
    length-read_entries ((k, loc) ∷ d) (record l { index = (k, loc) ∷ d }) ms
      (sym (recover-saved l (k, loc) d e) ∙ p)
