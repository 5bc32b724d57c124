-- ===== src/Persistence/Codec/RoundTrip.antt =====
-- A record of the log is read back as it was written, and no part of it is taken for a record.
use ai_coding_training.Base.{
  sym, ℕ, ◌+◌, ◌<◌, ◌^◌, ◌≡◌, refl, ◌∙◌, ap, true, some, [], ◌++◌, arith, length, take,
  length-append, take-append,
}
use ai_coding_training.Base.Action.{Outcome, ok, raised, pure, ◌>>=◌}
use ai_coding_training.Base.Int.{ℤ}
use ai_coding_training.Text.{Text}
use ai_coding_training.Text.Utf8.{IsText, encode}
use ai_coding_training.Models.{Message, Status}
use ai_coding_training.Persistence.Struct.{
  Bytes, CodecError, struct_error, bound, big_endian, to_word, fits_signed, pack_unsigned,
  read_unsigned, read_signed, read_text, length-big_endian, value_of, value_of-big_endian,
}
use ai_coding_training.Persistence.Struct.Exact.{
  Exact, Exact-bind, Exact-last, Exact-read_unsigned, Exact-read_signed, Exact-read_text,
}
use ai_coding_training.Persistence.Codec.{
  total_length, serialize, read_string, read_numbers, read_message, deserialize,
}

-- What the log keeps of a message: all but its state at run time.
unfoldable pub persisted : Message → Message
persisted m = record m {
  status = Status.pending;
  retry_count = 0;
  delivered_to = [];
  deliver_time = 0;
  original_target = [];
}

-- The texts hold no surrogates.
pub record HasTexts (m : Message) : Type 0 where
  pub msg_id : IsText m.msg_id
  pub target : IsText m.target
  pub body : IsText m.body

-- Every number fits its field of the format.
pub record Fits (m : Message) : Type 0 where
  pub total : total_length m < 2 ^ 32
  pub msg_id : length (encode m.msg_id) < 2 ^ 16
  pub target : length (encode m.target) < 2 ^ 16
  pub body : length (encode m.body) < 2 ^ 32
  pub timestamp : fits_signed 8 m.timestamp ≡ true
  pub ttl : fits_signed 4 m.ttl ≡ true
  pub ack_timeout : fits_signed 4 m.ack_timeout ≡ true

-- The bytes of a message that fits.
unfoldable pub layout : Message → Bytes
layout m =
    big_endian 4 (total_length m)
    ++ ((big_endian 2 (length (encode m.msg_id)) ++ encode m.msg_id)
        ++ ((big_endian 2 (length (encode m.target)) ++ encode m.target)
            ++ ((big_endian 4 (length (encode m.body)) ++ encode m.body)
                ++ (big_endian 8 (to_word 8 m.timestamp)
                    ++ (big_endian 4 (to_word 4 m.ttl)
                        ++ big_endian 4 (to_word 4 m.ack_timeout))))))

pack_unsigned-fits : (w n : ℕ) → n < bound w → pack_unsigned w n ≡ some (big_endian w n)
unfolding pack_unsigned
pack_unsigned-fits w n h = ground arith

-- A message is serialized if it fits, and only then.
pub serialize-layout : (m : Message) → Fits m → serialize m ≡ some (layout m)
unfolding serialize layout bound
serialize-layout m h = ground (arith)

pub serialize-Fits : (m : Message) (bs : Bytes) → serialize m ≡ some bs → Fits m
unfolding serialize bound
serialize-Fits m bs h = ground arith

eq-layout : (m : Message) (bs : Bytes) → serialize m ≡ some bs → Fits m → bs ≡ layout m
eq-layout m bs h f = cc (serialize-layout m f)

Exact-read_string :
    (w : ℕ) (s : Text)
    → IsText s
    → length (encode s) < bound w
    → Exact (read_string w) (big_endian w (length (encode s)) ++ encode s) s
unfolding read_string
Exact-read_string w s t h =
    Exact-bind (read_unsigned w) (λ n. read_text n) (big_endian w (length (encode s))) (encode s)
      (length (encode s)) s (Exact-read_unsigned w (length (encode s)) h) (Exact-read_text s t)

module _ (m : Message) (h : Fits m) where
  numbers : Bytes
  numbers =
      big_endian 8 (to_word 8 m.timestamp)
      ++ (big_endian 4 (to_word 4 m.ttl) ++ big_endian 4 (to_word 4 m.ack_timeout))

  Exact-read_numbers : Exact (read_numbers m.msg_id m.target m.body) numbers (persisted m)
  unfolding read_numbers numbers persisted
  Exact-read_numbers =
      let made = λ (t l k : ℤ). record m {
        timestamp = t;
        ttl = l;
        ack_timeout = k;
        status = Status.pending;
        retry_count = 0;
        delivered_to = [];
        deliver_time = 0;
        original_target = [];
      } in
      Exact-bind (read_signed 8) (λ t. do l ← read_signed 4; k ← read_signed 4; pure (made t l k))
        (big_endian 8 (to_word 8 m.timestamp))
        (big_endian 4 (to_word 4 m.ttl) ++ big_endian 4 (to_word 4 m.ack_timeout)) m.timestamp
        (persisted m) (Exact-read_signed 8 m.timestamp h.timestamp (unfold bound in refl))
        (Exact-bind (read_signed 4) (λ l. do k ← read_signed 4; pure (made m.timestamp l k))
          (big_endian 4 (to_word 4 m.ttl)) (big_endian 4 (to_word 4 m.ack_timeout)) m.ttl
          (persisted m) (Exact-read_signed 4 m.ttl h.ttl (unfold bound in refl))
          (Exact-last (made m.timestamp m.ttl)
            (Exact-read_signed 4 m.ack_timeout h.ack_timeout (unfold bound in refl))))

  Exact-read_message : HasTexts m → Exact read_message (layout m) (persisted m)
  unfolding read_message layout numbers
  Exact-read_message t =
      let id = big_endian 2 (length (encode m.msg_id)) ++ encode m.msg_id in
      let target = big_endian 2 (length (encode m.target)) ++ encode m.target in
      let body = big_endian 4 (length (encode m.body)) ++ encode m.body in
      Exact-bind (read_unsigned 4)
        (λ n. do i ← read_string 2; g ← read_string 2; b ← read_string 4; read_numbers i g b)
        (big_endian 4 (total_length m)) (id ++ (target ++ (body ++ numbers))) (total_length m)
        (persisted m) (Exact-read_unsigned 4 (total_length m) (unfold bound in h.total))
        (Exact-bind (read_string 2)
          (λ i. do g ← read_string 2; b ← read_string 4; read_numbers i g b) id
          (target ++ (body ++ numbers)) m.msg_id (persisted m)
          (Exact-read_string 2 m.msg_id t.msg_id (unfold bound in h.msg_id))
          (Exact-bind (read_string 2) (λ g. do b ← read_string 4; read_numbers m.msg_id g b) target
            (body ++ numbers) m.target (persisted m)
            (Exact-read_string 2 m.target t.target (unfold bound in h.target))
            (Exact-bind (read_string 4) (λ b. read_numbers m.msg_id m.target b) body numbers m.body
              (persisted m) (Exact-read_string 4 m.body t.body (unfold bound in h.body))
              Exact-read_numbers)))

-- A serialized message whose texts hold no surrogates, with any bytes behind it, is deserialized to
-- the message in the state in which a message starts: pending, never delivered, with no retries.
pub deserialize-serialize :
    (m : Message) (bs rest : Bytes)
    → HasTexts m
    → serialize m ≡ some bs
    → deserialize (bs ++ rest) ≡ ok (persisted m)
unfolding deserialize
deserialize-serialize m bs rest t h =
    let f : Fits m = serialize-Fits m bs h in
    let e : bs ≡ layout m = eq-layout m bs h f in
    rw e
      (ap (λ (p : Outcome CodecError Message × Bytes). p.0) ((Exact-read_message m f t).whole rest))

-- Every proper part, from its start, of a serialized message whose texts hold no surrogates is
-- refused with `struct.error`.
pub deserialize_truncated :
    (m : Message) (bs : Bytes) (k : ℕ)
    → HasTexts m
    → serialize m ≡ some bs
    → k < length bs
    → deserialize (take k bs) ≡ raised struct_error
unfolding deserialize
deserialize_truncated m bs k t h lt =
    let f : Fits m = serialize-Fits m bs h in
    let e : bs ≡ layout m = eq-layout m bs h f in
    rw e ((Exact-read_message m f t).short k (rw e at lt))

length-layout : (m : Message) → length (layout m) ≡ 4 + total_length m
unfolding layout total_length
length-layout m = simp (length-append {0}, length-big_endian) (omega arith)

header-layout : (m : Message) → Fits m → value_of 0 (take 4 (layout m)) ≡ total_length m
unfolding layout
header-layout m f =
    ap (λ (bs : Bytes). value_of 0 bs)
      (ap (λ (n : ℕ). take n (layout m)) (sym (length-big_endian 4 (total_length m)))
        ∙ take-append (big_endian 4 (total_length m)) _)
    ∙ value_of-big_endian 4 (total_length m) (unfold bound in f.total)

-- The header of a serialized message states the number of the bytes behind it.
pub serialize-total_length :
    (m : Message) (bs : Bytes)
    → serialize m ≡ some bs
    → (value_of 0 (take 4 bs) ≡ total_length m) × (length bs ≡ 4 + total_length m)
serialize-total_length m bs h =
    let f : Fits m = serialize-Fits m bs h in
    let e : bs ≡ layout m = eq-layout m bs h f in rw e (header-layout m f, length-layout m)
