-- ===== src/Persistence/Log.antt =====
-- `IndexManager` and `PersistenceLayer`: appending, reading and recovering messages. The file
-- handles are opened to append and flushed after each write, so a file holds what was written.
pub mod Stored
pub mod Appends
pub mod Recovery
pub mod Reopen
pub mod Kept
pub mod Durable
use ai_coding_training.Base.{
  ℕ, zero, suc, ◌+◌, ◌-◌, ◌*◌, Bool, true, false, not, ◌&&◌, ◌||◌, Option, none, some, List, [],
  ◌∷◌, ◌++◌, leb, ltb, if◌then◌else◌, length, drop, take, all, map,
}
use ai_coding_training.Base.Action.{
  Outcome, ok, raised, Action, pure, raise, gets, modify, or_raise, raise_if, ◌>>=◌, ◌>>◌,
}
use ai_coding_training.Text.{Text}
use ai_coding_training.Dict.{Dict, lookup, contains, insert, erase}
use ai_coding_training.Models.{Message}
use ai_coding_training.Persistence.Struct.{Bytes, CodecError, struct_error, unicode_error, value_of}
use ai_coding_training.Persistence.Codec.{serialize, deserialize}
use ai_coding_training.Persistence.Segments.{
  PersistError, disk_low, pack_error, unpack_error, Segments, SegmentAction, content, touch,
  get_active_segment, add_bytes, open_segments,
}

-- `(segment, offset)`
abbrev pub Location : Type 0
Location = Text × ℕ

-- The file index.json: missing, not readable as JSON, or a saved index.
pub data SavedIndex : Type 0 where
  missing : SavedIndex
  corrupt : SavedIndex
  entries : Dict Location → SavedIndex

pub record Layer : Type 0 where
  pub fsync_on_write : Bool
  pub fsync_interval : ℕ
  pub last_fsync : ℕ
  pub segment_mgr : Segments
  pub index : Dict Location
  pub saved : SavedIndex

abbrev pub LayerAction : Type 0 → Type 0
LayerAction = Action Layer PersistError

-- A method of the segment manager, called from the layer.
abbrev pub on_segments : {A : Type 0} → SegmentAction A → LayerAction A
on_segments m l = let (r, s) = m l.segment_mgr in (r, record l { segment_mgr = s })

-- `IndexManager.put`, `get`, `remove` and `persist`
unfoldable pub index_put : Text → Text → ℕ → Layer → Layer
index_put msg_id segment offset l = record l { index = insert msg_id (segment, offset) l.index }

unfoldable pub index_get : Text → Layer → Option Location
index_get msg_id l = lookup msg_id l.index

unfoldable pub index_remove : Text → Layer → Layer
index_remove msg_id l = record l { index = erase msg_id l.index }

unfoldable pub persist : Layer → Layer
persist l = record l { saved = entries l.index }

-- `IndexManager.recover`: a missing file leaves the index as it is, an unreadable one empties it.
unfoldable pub index_recover : Layer → Layer
index_recover l = elim l.saved [
  | missing ↦ l
  | corrupt ↦ record l { index = [] }
  | entries d ↦ record l { index = d }
]

-- `IndexManager.size`
unfoldable pub size : Layer → ℕ
size l = length l.index

-- Triples, where `cleanup_segments` takes pairs.
unfoldable pub get_all_entries : Layer → List (Text × Text × ℕ)
get_all_entries l = map (λ (e : Text × Location). (e.0, e.1.0, e.1.1)) l.index

abbrev pub min_free : ℕ
min_free = 10 * 1024 * 1024

unfoldable pub check_disk_space : ℕ → LayerAction Unit
check_disk_space free = raise_if (ltb free min_free) disk_low

-- `_get_file(segment)` and `f.tell()`: the length of the file that is appended to.
unfoldable pub end_of : Text → Layer → ℕ
end_of segment l = length (content segment l.segment_mgr.files)

-- `f.write(data)` and `f.flush()`, where they succeed.
unfoldable pub write : Text → Bytes → Layer → Layer
write segment bs l = record l {
  segment_mgr = record l.segment_mgr {
    files = insert segment (content segment l.segment_mgr.files ++ bs) l.segment_mgr.files;
  };
}

unfoldable pub note_bytes : ℕ → Layer → Layer
unfolding add_bytes
note_bytes n l = record l { segment_mgr = add_bytes n l.segment_mgr }

-- The timed `os.fsync`, which is left out where every write syncs.
unfoldable pub timed_fsync : ℕ → Layer → Layer
timed_fsync now l =
    if not l.fsync_on_write && leb l.fsync_interval (now - l.last_fsync)
    then record l { last_fsync = now }
    else l

-- What `append` does under the write lock.
unfoldable pub append_bytes : ℕ → Text → Text → Bytes → Layer → ℕ × Layer
unfolding end_of write note_bytes index_put timed_fsync
append_bytes now msg_id segment bs l =
    let offset = end_of segment l in
    (
      offset,
      timed_fsync now
          (index_put msg_id segment offset (note_bytes (length bs) (write segment bs l))),
    )

-- `append(msg)` at a time and with so much free disk space.
unfoldable pub append : ℕ → ℕ → Message → LayerAction ℕ
unfolding check_disk_space append_bytes
append now free msg = do
  bs ← or_raise (serialize msg) pack_error
  segment ← on_segments get_active_segment
  check_disk_space free
  λ l. let (offset, l') = append_bytes now msg.msg_id segment bs l in (ok offset, l')

-- What follows an offset in a file: a whole header, and as many bytes as it states. The handler
-- of `struct.error` returns `None`; a `UnicodeDecodeError` is not caught.
unfoldable pub read_record : Bytes → Outcome CodecError (Option Message)
read_record rest =
    if ltb (length (take 4 rest)) 4
    then ok none
    else elim (deserialize (take (4 + value_of 0 (take 4 rest)) rest)) [
      | ok msg ↦ ok (some msg)
      | raised struct_error ↦ ok none
      | raised unicode_error ↦ raised unicode_error
    ]

-- `read_at(segment, offset)`
unfoldable pub read_at : Text → ℕ → Layer → Outcome CodecError (Option Message)
unfolding read_record
read_at segment offset l = elim (lookup segment l.segment_mgr.files) [
  | none ↦ ok none
  | some bs ↦ read_record (drop offset bs)
]

-- `read(msg_id)`
unfoldable pub read : Text → Layer → Outcome CodecError (Option Message)
unfolding read_at index_get
read msg_id l = elim (index_get msg_id l) [
  | none ↦ ok none
  | some (segment, offset) ↦ read_at segment offset l
]

-- `if msg is not None: messages.append(msg)`, in front of what the later entries give.
abbrev pub collect :
    Outcome CodecError (Option Message)
    → Outcome CodecError (List Message)
    → Outcome CodecError (List Message)
collect (raised e) r = raised e
collect (ok none) r = r
collect (ok (some m)) (ok ms) = ok (m ∷ ms)
collect (ok (some m)) (raised e) = raised e

-- The messages at the locations of the index, those that can be read.
unfoldable pub read_entries : Dict Location → Layer → Outcome CodecError (List Message)
unfolding read_at
read_entries [] l = ok []
read_entries ((k, (segment, offset)) ∷ d) l = collect (read_at segment offset l) (read_entries d l)

-- The loop over one segment, on fuel: the bytes from `offset` on, the messages found so far, and
-- the index. It ends at the first record that is not whole.
unfoldable pub scan :
    ℕ → Text → ℕ → Bytes → List Message → Dict Location → List Message × Dict Location
scan zero segment offset rest ms index = (ms, index)
scan (suc fuel) segment offset rest ms index =
    let raw = take (4 + value_of 0 (take 4 rest)) rest in
    if ltb (length (take 4 rest)) 4 || ltb (length raw) 4
    then (ms, index)
    else elim (deserialize raw) [
      | ok msg ↦
          scan fuel segment (offset + length raw) (drop (length raw) rest) (ms ++ msg ∷ [])
            (insert msg.msg_id (segment, offset) index)
      | raised _ ↦ (ms, index)
    ]

-- Each round takes four bytes at least, so the length of the file is fuel enough.
unfoldable pub scan_segment :
    Text → Dict Bytes → List Message → Dict Location → List Message × Dict Location
scan_segment segment files ms index = elim (lookup segment files) [
  | none ↦ (ms, index)
  | some bs ↦ scan (suc (length bs)) segment 0 bs ms index
]

unfoldable pub scan_segments :
    List Text → Dict Bytes → List Message → Dict Location → List Message × Dict Location
scan_segments [] files ms index = (ms, index)
scan_segments (n ∷ ns) files ms index =
    let (ms', index') = scan_segment n files ms index in scan_segments ns files ms' index'

-- `recover()`: by the saved index if it has an entry, and otherwise by a scan of the segments.
unfoldable pub recover : Layer → Outcome CodecError (List Message) × Layer
recover l =
    let l' = index_recover l in
    elim l'.index [
      | [] ↦
          let (ms, index) = scan_segments l'.segment_mgr.segments l'.segment_mgr.files [] [] in
          (ok ms, record l' { index = index })
      | e ∷ d ↦ (read_entries (e ∷ d) l', l')
    ]

-- `cleanup_segments`: the loop takes each entry of the index, which is a triple, apart as a pair
-- whose second part is a pair, and so raises at the first one.
unfoldable pub cleanup_segments : LayerAction ℕ
cleanup_segments l = elim l.index [ [] ↦ (ok 0, l) | e ∷ d ↦ (raised unpack_error, l) ]

unfoldable pub fsync : ℕ → Layer → Layer
fsync now l = record l { last_fsync = now }

-- `close()`: the handles are closed, and the index is saved.
unfoldable pub close : ℕ → Layer → Layer
unfolding fsync persist
close now l = persist (fsync now l)

-- `PersistenceLayer(data_dir, max_segment_size, fsync_on_write, fsync_interval)` over the files
-- and the saved index of the data directory; the number of segments has its default.
unfoldable pub open_layer :
    ℕ → Bool → ℕ → ℕ → Dict Bytes → SavedIndex → Outcome PersistError Unit × Layer
open_layer size on_write interval now files saved =
    let (r, s) = open_segments size 100 files in
    (
      r,
      record {
        fsync_on_write = on_write;
        fsync_interval = interval;
        last_fsync = now;
        segment_mgr = s;
        index = [];
        saved = saved;
      },
    )
