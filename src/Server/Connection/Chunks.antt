-- ===== src/Server/Connection/Chunks.antt =====
-- The lines of a connection do not depend on how the stream is cut into chunks.
use ai_coding_training.Base.{
  ℕ, zero, suc, ◌≤◌, ◌≡◌, refl, sym, ap, ◌∙◌, none, some, List, [], ◌∷◌, ◌++◌, map, arith, length,
  All, append-nil, append_assoc, Option-cases, inl, inr,
}
use ai_coding_training.Base.Action.{
  ok, Action, pure, ◌>>=◌, ◌>>◌, bind-ok, bind_assoc, bind-eq, bind_cong, bind_pure,
}
use ai_coding_training.Text.{Text}
use ai_coding_training.Text.Lines.{crlf, cut_line, cut_line-shorter, cut_line-append, cut_line-line}
use ai_coding_training.Text.Utf8.{encode, IsText}
use ai_coding_training.Text.Replace.{decode_replace-encode}
use ai_coding_training.Server.Connection.{Wire, WireAction, answer_line, drain, settle, feed}

-- Lines, each with its break, and what stands behind the last break.
unfoldable pub lined : List Text → Text → Text
lined [] rest = rest
lined (line ∷ lines) rest = line ++ crlf ++ lined lines rest

unfoldable pub concat : List Text → Text
concat [] = []
concat (t ∷ ts) = t ++ concat ts

module _ {S E : Type 0} (serve : Text → Action S E Text) where
  -- The lines, one after the other.
  unfoldable pub answer_each : List Text → WireAction S E Unit
  answer_each [] = pure tt
  answer_each (line ∷ lines) = answer_line serve line >> answer_each lines

  -- The buffer after several chunks.
  unfoldable pub feed_all : Text → List (List ℕ) → WireAction S E Text
  feed_all buf [] = pure buf
  feed_all buf (c ∷ cs) = feed serve buf c >>= λ buf. feed_all buf cs

  drain_last : (n : ℕ) (buf : Text) → cut_line buf ≡ none → drain serve n buf ≡ pure buf
  unfolding drain
  drain_last zero buf h = refl
  drain_last (suc n) buf h = rw (h, drain) refl

  drain_more :
      (n : ℕ) (buf line rest : Text)
      → cut_line buf ≡ some (line, rest)
      → drain serve (suc n) buf ≡ (answer_line serve line >> drain serve n rest)
  unfolding drain
  drain_more n buf line rest h = rw (h, drain) refl

  -- More fuel than the buffer is long makes no difference.
  drain_fuel :
      (n k : ℕ) (buf : Text) (w : Wire S)
      → length buf ≤ n
      → length buf ≤ k
      → drain serve n buf w ≡ drain serve k buf w
  unfolding drain
  drain_fuel zero k [] w hn hk = ap (λ f. f w) (sym (drain_last k [] (unfold cut_line in refl)))
  drain_fuel zero k (c ∷ buf) w hn hk = absurd (omega arith)
  drain_fuel (suc n) zero [] w hn hk =
      ap (λ f. f w) (drain_last (suc n) [] (unfold cut_line in refl))
  drain_fuel (suc n) zero (c ∷ buf) w hn hk = absurd (omega arith)
  drain_fuel (suc n) (suc k) buf w hn hk = elim (Option-cases (cut_line buf)) [
    | inl last ↦ ap (λ f. f w) (drain_last (suc n) buf last ∙ sym (drain_last (suc k) buf last))
    | inr ((line, rest), more) ↦
        let l = cut_line-shorter buf line rest more in
        ap (λ f. f w) (drain_more n buf line rest more)
        ∙ bind-eq (answer_line serve line) (λ _. drain serve n rest) (λ _. drain serve k rest) w
            (λ u w'. drain_fuel n k rest w' (omega arith) (omega arith))
        ∙ ap (λ f. f w) (sym (drain_more k buf line rest more))
  ]

  settle_last : (buf : Text) → cut_line buf ≡ none → settle serve buf ≡ pure buf
  unfolding settle
  settle_last buf h = drain_last (length buf) buf h

  settle_more :
      (buf line rest : Text) (w : Wire S)
      → cut_line buf ≡ some (line, rest)
      → settle serve buf w ≡ (answer_line serve line >> settle serve rest) w
  unfolding settle
  settle_more buf line rest w h =
      let l = cut_line-shorter buf line rest h in
      drain_fuel (length buf) (suc (length buf)) buf w (omega arith) (omega arith)
      ∙ ap (λ f. f w) (drain_more (length buf) buf line rest h)
      ∙ bind-eq (answer_line serve line) (λ _. drain serve (length buf) rest)
          (λ _. settle serve rest) w
          (λ u w'.
            unfold settle in
            drain_fuel (length buf) (length rest) rest w' (omega arith) (omega arith))

  -- The loop dispatches the lines before the last break, in order, and keeps the rest.
  pub settle-lined :
      (lines : List Text) (rest : Text) (w : Wire S)
      → All (λ line. cut_line line ≡ none) lines
      → cut_line rest ≡ none
      → settle serve (lined lines rest) w ≡ (answer_each lines >> pure rest) w
  unfolding lined answer_each
  settle-lined [] rest w h r = ap (λ f. f w) (settle_last rest r)
  settle-lined (line ∷ lines) rest w h r =
      settle_more (line ++ crlf ++ lined lines rest) line (lined lines rest) w
        (cut_line-line line (lined lines rest) h.0)
      ∙ bind-eq (answer_line serve line) (λ _. settle serve (lined lines rest))
          (λ _. answer_each lines >> pure rest) w (λ u w'. settle-lined lines rest w' h.1 r)
      ∙ sym (bind_assoc (answer_line serve line) (λ _. answer_each lines) (λ _. pure rest) w)

  -- What is put behind the rest of a buffer could have been put behind the buffer.
  settle-append :
      (n : ℕ) (a b : Text) (w : Wire S)
      → length a ≤ n
      → (settle serve a >>= λ r. settle serve (r ++ b)) w ≡ settle serve (a ++ b) w
  settle-append zero [] b w l =
      bind-ok (settle serve []) (λ r. settle serve (r ++ b)) w
        (ap (λ f. f w) (settle_last [] (unfold cut_line in refl)))
  settle-append zero (c ∷ a) b w l = absurd (omega arith)
  settle-append (suc n) a b w l = elim (Option-cases (cut_line a)) [
    | inl last ↦
        bind-ok (settle serve a) (λ r. settle serve (r ++ b)) w (ap (λ f. f w) (settle_last a last))
    | inr ((line, rest), more) ↦
        let shorter = cut_line-shorter a line rest more in
        let again : Text → WireAction S E Text = λ r. settle serve (r ++ b) in
        bind_cong (settle serve a) (answer_line serve line >> settle serve rest) again w
          (settle_more a line rest w more)
        ∙ bind_assoc (answer_line serve line) (λ _. settle serve rest) again w
        ∙ bind-eq (answer_line serve line) (λ _. settle serve rest >>= again)
            (λ _. settle serve (rest ++ b)) w (λ u w'. settle-append n rest b w' (omega arith))
        ∙ sym (settle_more (a ++ b) line (rest ++ b) w (cut_line-append a b line rest more))
  ]

  settle-feed_all :
      (a : Text) (ts : List Text) (w : Wire S)
      → All IsText ts
      → (settle serve a >>= λ r. feed_all r (map encode ts)) w ≡ settle serve (a ++ concat ts) w
  unfolding feed_all concat
  settle-feed_all a [] w h =
      bind_pure (settle serve a) w ∙ ap (λ t. settle serve t w) (sym (append-nil a))
  settle-feed_all a (t ∷ ts) w h =
      let rest : Text → WireAction S E Text = λ r. feed_all r (map encode ts) in
      bind-eq (settle serve a) (λ r. feed serve r (encode t) >>= rest)
        (λ r. settle serve (r ++ t) >>= rest) w
        (λ r w'.
          unfold feed in
          ap (λ u. (settle serve (r ++ u) >>= rest) w') (decode_replace-encode t h.0))
      ∙ sym (bind_assoc (settle serve a) (λ r. settle serve (r ++ t)) rest w)
      ∙ bind_cong (settle serve a >>= λ r. settle serve (r ++ t)) (settle serve (a ++ t)) rest w
          (settle-append (length a) a t w (omega arith))
      ∙ settle-feed_all (a ++ t) ts w h.1
      ∙ ap (λ u. settle serve u w) (append_assoc a t (concat ts))

  -- However a connection's text is cut into chunks, as long as no chunk ends within a character, the
  -- lines before the last break are served one after the other, blank ones excepted, each with the
  -- white space round it taken off, and what stands behind the last break stays in the buffer.
  pub feed_all-lined :
      (ts lines : List Text) (rest : Text) (w : Wire S)
      → All IsText ts
      → concat ts ≡ lined lines rest
      → All (λ line. cut_line line ≡ none) lines
      → cut_line rest ≡ none
      → feed_all [] (map encode ts) w ≡ (answer_each lines >> pure rest) w
  feed_all-lined ts lines rest w texts e h r =
      let start : settle serve [] w ≡ (ok [], w) =
        ap (λ f. f w) (settle_last [] (unfold cut_line in refl)) in
      sym (bind-ok (settle serve []) (λ r. feed_all r (map encode ts)) w start)
      ∙ settle-feed_all [] ts w texts
      ∙ ap (λ u. settle serve u w) e
      ∙ settle-lined lines rest w h r
