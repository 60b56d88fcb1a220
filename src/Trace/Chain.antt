-- ===== src/Trace/Chain.antt =====
-- How the entries of a trace of lib/bombadil/src/trace/writer.rs follow each other.
use mathlib.Core.Path.{subst}
use mathlib.Core.List.{append_assoc, append-nil}
use bombadil.Common.{ℕ, Option, none, some, List, [], ◌∷◌, ◌++◌, map, ◌≡◌, refl, sym, ap, ◌∙◌}
use bombadil.Common.Text.{Text}
use bombadil.Common.Run.{Run, and_then, Ends, Ends-bind, Ends-expect, Ends-if}
use bombadil.Trace.{
  Setting, Request, Piece, Host, Failure, write, write_entry, write_all, create_new, append,
  to_schema, entry_of, initialize, screenshot_path, is_taken,
}

module _ (S : Setting) where
  -- The entries that a writer has added: each names the hash of the one before it, and after them
  -- stands the hash of the last one.
  abbrev pub Chained : Option ℕ → List (Piece S) → Option ℕ → Type 0
  Chained previous [] last = previous ≡ last
  Chained previous (Piece.json entry ∷ pieces) last =
      (entry.hash_previous ≡ previous) × Chained entry.hash_current pieces last
  Chained previous (Piece.newline ∷ pieces) last = Chained previous pieces last

  -- The hashes of the entries.
  abbrev pub hashes : List (Piece S) → List (Option ℕ)
  hashes [] = []
  hashes (Piece.json entry ∷ pieces) = entry.hash_current ∷ hashes pieces
  hashes (Piece.newline ∷ pieces) = hashes pieces

  Chained-append :
      (pieces more : List (Piece S)) (first middle last : Option ℕ)
      → Chained first pieces middle
      → Chained middle more last
      → Chained first (pieces ++ more) last
  Chained-append [] more first middle last p q = subst (λ h. Chained h more last) (sym p) q
  Chained-append (Piece.json entry ∷ pieces) more first middle last p q =
      (p.0, Chained-append pieces more entry.hash_current middle last (p.1) q)
  Chained-append (Piece.newline ∷ pieces) more first middle last p q =
      Chained-append pieces more first middle last p q

  hashes-append :
      (pieces more : List (Piece S)) → hashes (pieces ++ more) ≡ hashes pieces ++ hashes more
  hashes-append [] more = refl
  hashes-append (Piece.json entry ∷ pieces) more =
      ap (λ rest. entry.hash_current ∷ rest) (hashes-append pieces more)
  hashes-append (Piece.newline ∷ pieces) more = hashes-append pieces more

  -- The trace is the old content with entries that form a chain and that have these hashes.
  pub record Added (old : List (Piece S)) (done : List (Option ℕ)) (host : Host S) : Type 0 where
    pub new : List (Piece S)
    pub extends : host.trace ≡ old ++ new
    pub has_hashes : hashes new ≡ done
    pub chained : Chained none new host.last_transition_hash

  -- The same after a failure, where the hash of the writer says nothing and the entries are some of
  -- those asked for.
  pub record Left (old : List (Piece S)) (asked : List (Option ℕ)) (host : Host S) : Type 0 where
    pub new : List (Piece S)
    pub rest : List (Option ℕ)
    pub last : Option ℕ
    pub extends : host.trace ≡ old ++ new
    pub are_asked : hashes new ++ rest ≡ asked
    pub chained : Chained none new last

  abbrev pub wanted : List (Request S) → List (Option ℕ)
  wanted = map λ r. r.transition_hash

  module _ (old : List (Piece S)) (done : List (Option ℕ)) (more : List (Option ℕ)) where
    left :
        (h : Host S)
        → Added old done h
        → (f : Host S) → f.trace ≡ h.trace
        → Left old (done ++ more) f
    left h a f e = record {
      new = a.new;
      rest = more;
      last = h.last_transition_hash;
      extends = e ∙ a.extends;
      are_asked = ap (λ done'. done' ++ more) a.has_hashes;
      chained = a.chained;
    }

    -- A step that changes neither the trace nor the hash.
    same :
        (h f : Host S)
        → Added old done h
        → f.trace ≡ h.trace
        → f.last_transition_hash ≡ h.last_transition_hash
        → Added old done f
    same h f a e k = record {
      new = a.new;
      extends = e ∙ a.extends;
      has_hashes = a.has_hashes;
      chained = subst (Chained none a.new) (sym k) a.chained;
    }

    with_entry :
        (h : Host S) (r : Request S) (nanos : ℕ) (path : Text)
        → Added old done h
        → Added old (done ++ r.transition_hash ∷ []) (
            append S
              (Piece.json (to_schema S (entry_of S r nanos path h.last_transition_hash)))
              (record h { last_transition_hash = r.transition_hash }))
    unfolding to_schema
    with_entry h r nanos path a =
        let entry = entry_of S r nanos path h.last_transition_hash in
        let added : List (Piece S) = Piece.json (to_schema S entry) ∷ [] in
        record {
          new = a.new ++ added;
          extends = ap (λ t. t ++ added) a.extends ∙ append_assoc old a.new added;
          has_hashes =
              hashes-append a.new added ∙ ap (λ hs. hs ++ r.transition_hash ∷ []) a.has_hashes;
          chained =
              Chained-append a.new added none h.last_transition_hash r.transition_hash a.chained
                (refl, refl);
        }

    with_newline : (h : Host S) → Added old done h → Added old done (append S Piece.newline h)
    with_newline h a = record {
      new = a.new ++ Piece.newline ∷ [];
      extends = ap (λ t. t ++ Piece.newline ∷ []) a.extends ∙ append_assoc old a.new _;
      has_hashes = hashes-append a.new _ ∙ append-nil (hashes a.new) ∙ a.has_hashes;
      chained =
          Chained-append a.new (Piece.newline ∷ []) none h.last_transition_hash _ a.chained refl;
    }

  -- What holds of a part of the writer that is asked for one hash, after the ones that are done and
  -- before more.
  abbrev Writes :
      List (Piece S)
      → List (Option ℕ)
      → Option ℕ
      → List (Option ℕ)
      → Run (Host S) Failure (Unit {0})
      → Type 0
  Writes old done hash more =
      Ends (λ _ w. Added old (done ++ hash ∷ []) w) (λ w. Left old (done ++ hash ∷ more) w)

  module _ (old : List (Piece S)) (done more : List (Option ℕ)) (r : Request S) where
    abbrev Good : Unit {0} → Host S → Type 0
    Good _ w = Added old (done ++ r.transition_hash ∷ []) w

    abbrev Bad : Host S → Type 0
    Bad w = Left old (done ++ r.transition_hash ∷ more) w

    left_after : (h : Host S) → Added old (done ++ r.transition_hash ∷ []) h → Bad h
    left_after h a =
        subst (λ asked. Left old asked h) (append_assoc done (r.transition_hash ∷ []) more)
          (left old (done ++ r.transition_hash ∷ []) more h a h refl)

    write_entry-Writes :
        (nanos : ℕ) (path : Text) (h : Host S)
        → Added old done h
        → Writes old done r.transition_hash more (write_entry S r nanos path h)
    unfolding write_entry
    write_entry-Writes nanos path h a =
        let set : Host S = record h { last_transition_hash = r.transition_hash } in
        let failed = left old done (r.transition_hash ∷ more) h a set refl in
        let written = with_entry old done more h r nanos path a in
        Ends-expect Good Bad r.serializes _ _ set failed λ _.
          Ends-expect Good Bad r.writes_entry _ _ set failed λ _.
            Ends-expect Good Bad r.writes_newline _ _ _ (left_after _ written)
              λ _. with_newline old (done ++ r.transition_hash ∷ []) more _ written

    create_new-Adds :
        (path : Text) (h : Host S)
        → Added old done h
        → Ends (λ _ w. Added old done w) Bad (create_new S path r.creates h)
    unfolding create_new
    create_new-Adds path h a =
        let failed = left old done (r.transition_hash ∷ more) h a h refl in
        Ends-if _ Bad (is_taken S path h.screenshots) _ _ h (λ _. failed)
          λ _. Ends-expect _ Bad r.creates _ _ h failed λ _. same old done more h _ a refl refl

    write-Writes :
        (screenshots_path : Text) (h : Host S)
        → Added old done h
        → Writes old done r.transition_hash more (write S screenshots_path r h)
    unfolding write
    write-Writes screenshots_path h a =
        let failed = λ (f : Host S) (b : Added old done f).
          left old done (r.transition_hash ∷ more) f b f refl in
        Ends-expect Good Bad r.since_epoch _ _ h (failed h a) λ nanos.
          let path = screenshot_path S screenshots_path nanos r.extension in
          Ends-bind (λ _ w. Added old done w) Good Bad (create_new S path r.creates) _ h
            (create_new-Adds path h a)
            λ _ w b.
              Ends-expect Good Bad r.writes_screenshot _ _ w (failed w b)
                λ _. write_entry-Writes nanos path _ (same old done more w _ b refl refl)

  write_all-Ends :
      (screenshots_path : Text) (requests : List (Request S)) (old : List (Piece S))
      (done : List (Option ℕ)) (h : Host S)
      → Added old done h
      → Ends
          (λ _ w. Added old (done ++ wanted requests) w)
          (λ w. Left old (done ++ wanted requests) w)
          (write_all S screenshots_path requests h)
  unfolding write_all
  write_all-Ends path [] old done h a = subst (λ hs. Added old hs h) (sym (append-nil done)) a
  write_all-Ends path (r ∷ requests) old done h a =
      let hash = r.transition_hash in
      let whole = append_assoc done (hash ∷ []) (wanted requests) in
      Ends-bind (λ _ w. Added old (done ++ hash ∷ []) w) _ _ (write S path r) _ h
        (write-Writes old done (wanted requests) r path h a)
        λ _ w b.
          subst
            (λ asked.
              Ends (λ _ v. Added old asked v) (λ v. Left old asked v) (write_all S path requests w))
            whole (write_all-Ends path requests old (done ++ hash ∷ []) w b)

  abbrev fresh : List (Text × List ℕ) → List (Piece S) → Host S
  fresh screenshots old = record {
    last_transition_hash = none;
    screenshots = screenshots;
    trace = old;
  }

  fresh-Added :
      (old : List (Piece S)) (screenshots : List (Text × List ℕ))
      → Added old [] (fresh screenshots old)
  fresh-Added old screenshots = record {
    new = [];
    extends = sym (append-nil old);
    has_hashes = refl;
    chained = refl;
  }

  not_started :
      (old : List (Piece S)) (hashes : List (Option ℕ)) (screenshots : List (Text × List ℕ))
      → Left old hashes (fresh screenshots old)
  not_started old hashes screenshots =
      let h = fresh screenshots old in left old [] hashes h (fresh-Added old screenshots) h refl

  -- From a fresh writer, the writes of a test add to the trace one entry for each state, with the
  -- hashes of the states in order, where each entry names the hash of the one before it and the
  -- first one names none; after a failure, also of the writer's start, the same holds for the entries
  -- of the first states.
  pub write_all-initialize-Added :
      (screenshots_path : Text) (requests : List (Request S))
      (creates_directory opens_trace : Option (Unit {0})) (screenshots : List (Text × List ℕ))
      (old : List (Piece S))
      → Ends
          (λ _ w. Added old (wanted requests) w)
          (λ w. Left old (wanted requests) w)
          (and_then
            (initialize S creates_directory opens_trace screenshots old)
            λ _. write_all S screenshots_path requests)
  unfolding initialize
  write_all-initialize-Added path requests none opens_trace screenshots old =
      not_started old (wanted requests) screenshots
  write_all-initialize-Added path requests (some _) none screenshots old =
      not_started old (wanted requests) screenshots
  write_all-initialize-Added path requests (some _) (some _) screenshots old =
      write_all-Ends path requests old [] _ (fresh-Added old screenshots)
