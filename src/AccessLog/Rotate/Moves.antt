-- ===== src/AccessLog/Rotate/Moves.antt =====
-- internal/logging/accesslog/rotate.go: moving the kept parts of a file to its front, and cutting it.
use godoxy.Prelude.{
  ℕ, ◌+◌, ◌<◌, ◌≡◌, refl, sym, ap, ◌∙◌, arith, true, false, not, Option, some, List, [], ◌∷◌, ◌++◌,
  inl, inr, append-nil, append_assoc, length, length-append, take, drop, take-append-drop,
  length-take, length-drop, ◌==◌, Bool-cases,
}
use godoxy.Prelude.Bytes.{Bytes}
use godoxy.Prelude.Int.{ℤ, pos}
use godoxy.AccessLog.FileIo.{FileIo, Obeys, got, WriteResult, wrote}
use godoxy.AccessLog.Visit.{LineInfo, RotateResult}
use godoxy.AccessLog.Rotate.{
  Rotated, file_content_move, move_read, written, move_lines, truncate_to, rewrite,
}
use godoxy.AccessLog.Rotate.Parts.{Parts, Parts-length, Parts-whole, nil_of_length}

module _ {F : Type 0} (io : FileIo F) (content : F → Bytes) (obeys : Obeys io content) where
  wrote_all : (n : ℕ) (r : F × WriteResult) → r.1 ≡ wrote n → (written n r).1 ≡ false
  unfolding written
  wrote_all n (f, x) e = rw e (ground arith)

  written_file : (n : ℕ) (r : F × WriteResult) → (written n r).0 ≡ r.0
  unfolding written
  written_file n (f, wrote m) = refl
  written_file n (f, WriteResult.write_failed) = refl

  -- A part that lies behind the position is read whole and written there.
  file_content_move_lem :
      (f : F) (done junk s rest : Bytes) (p w : ℕ)
      → content f ≡ done ++ (junk ++ (s ++ rest))
      → length done ≡ w
      → length done + length junk ≡ p
      → (left : Bytes) × (length left ≡ length junk)
        × ((file_content_move io f (pos p) w (length s)).1 ≡ false)
        × (content (file_content_move io f (pos p) w (length s)).0 ≡ (done ++ s) ++ (left ++ rest))
  unfolding file_content_move move_read
  file_content_move_lem f done junk s rest p w e hw hp = (
    drop (length s) (junk ++ s),
    omega (arith, length-drop (length s) (junk ++ s), length-append junk s),
    rw (reads, same) (wrote_all (length s) (io.write_at f (pos w) s) put.0),
    rw (reads, same, written_file (length s) (io.write_at f (pos w) s)) put.1,
  )
    where
      left : Bytes
      left = drop (length s) (junk ++ s)

      over : Bytes
      over = take (length s) (junk ++ s)

      same : (length s == length s) ≡ true
      same = ground arith

      reads : io.read_at f (pos p) (length s) ≡ got s
      reads =
          rw (← hp, ← length-append done junk)
            (obeys.read_part f (done ++ junk) s rest (e ∙ simp append_assoc))

      puts : content f ≡ done ++ over ++ (left ++ rest)
      puts =
          e
          ∙ ap (◌++◌ done) (
              sym (append_assoc junk s rest)
              ∙ ap (λ (x : Bytes). x ++ rest) (sym (take-append-drop (length s) (junk ++ s)))
              ∙ append_assoc over left rest)
          ∙ sym (append_assoc done over (left ++ rest))

      put :
          ((io.write_at f (pos w) s).1 ≡ wrote (length s))
          × (content (io.write_at f (pos w) s).0 ≡ done ++ s ++ (left ++ rest))
      put = rw (← hw) (
          obeys.write_part f done over (left ++ rest) s puts
            (omega (arith, length-take (length s) (junk ++ s), length-append junk s)))

  move_lines-cons :
      (gs : List LineInfo) (f : F) (w : ℕ) (p : ℤ) (n : ℕ)
      → (file_content_move io f p w n).1 ≡ false
      → move_lines io (record { position = p; size = n } ∷ gs) f w
        ≡ move_lines io gs (file_content_move io f p w n).0 (w + n)
  unfolding move_lines
  move_lines-cons gs f w p n e = rw e refl

  -- All parts end at the front, one after the other.
  move_lines_lem :
      (gs : List LineInfo) (f : F) (done junk tail out : Bytes) (base w : ℕ)
      → content f ≡ done ++ (junk ++ tail)
      → length done ≡ w
      → length done + length junk ≡ base
      → Parts base gs tail out
      → (left : Bytes) × ((move_lines io gs f w).1 ≡ some (w + length out))
        × (content (move_lines io gs f w).0 ≡ (done ++ out) ++ left)
  unfolding move_lines Parts
  move_lines_lem [] f done junk tail out base w e hw hb p =
      (junk ++ tail, rw p (ap some (omega arith)), rw (p, append-nil) e)
  move_lines_lem (g ∷ gs) f done junk tail out base w e hw hb
        (gap, s, rest, out', t, at, size, o, p) =
      let e' : content f ≡ done ++ ((junk ++ gap) ++ (s ++ rest)) = rw (e, t) (simp append_assoc) in
      let (left, ll, ok, c) =
        file_content_move_lem f done (junk ++ gap) s rest (base + length gap) w e' hw
          (omega (arith, hb, length-append junk gap)) in
      let (left', m, c') =
        move_lines_lem gs (file_content_move io f (pos (base + length gap)) w (length s)).0
          (done ++ s) left rest out' (base + length gap + length s) (w + length s) c
          (omega (arith, hw, length-append done s))
          (omega (arith, hb, ll, length-append done s, length-append junk gap)) p in
      let one : move_lines io (g ∷ gs) f w
          ≡ move_lines io gs (file_content_move io f (pos (base + length gap)) w (length s)).0
              (w + length s) =
        ap (λ (x : LineInfo). move_lines io (x ∷ gs) f w)
          (λ i. record { position = at i; size = size i })
        ∙ move_lines-cons gs f w (pos (base + length gap)) (length s) ok in
      (
        left',
        ap (λ (x : F × Option ℕ). x.1) one
            ∙ m
            ∙ ap some (omega (arith, length-append s out', ap length o)),
        ap (λ (x : F × Option ℕ). content x.0) one
            ∙ c'
            ∙ ap (λ (x : Bytes). x ++ left') (append_assoc done s out' ∙ ap (◌++◌ done) (sym o)),
      )

  -- What the rewriting of a file leaves, when the parts to keep are known.
  pub record Left (before : Bytes) (out : Bytes) (r : Rotated F) : Type 0 where
    pub text : content r.file ≡ out
    pub no_error : r.err ≡ false
    pub is_rotated : r.rotated ≡ not (length out == length before)

  truncate_to-Left :
      (r : RotateResult) (m : F × Option ℕ) (before out left : Bytes)
      → m.1 ≡ some (length out)
      → content m.0 ≡ out ++ left
      → (length out == length before) ≡ false
      → Left before out (truncate_to io r m)
  unfolding truncate_to
  truncate_to-Left r (f, n) before out left e c d =
      let t = obeys.truncate_part f out left c in
      rw e (record { text = t.1; no_error = t.0; is_rotated = rw (t.0, d) refl })

  pub rewrite-Left :
      (f : F) (r : RotateResult) (gs : List LineInfo) (front tail out : Bytes)
      → content f ≡ front ++ tail
      → 0 < length (content f)
      → r.original_size ≡ length (content f)
      → r.num_bytes_keep ≡ length out
      → Parts (length front) gs tail out
      → Left (content f) out (rewrite io f r gs)
  unfolding rewrite Parts
  rewrite-Left f r [] front tail out e h ho hk p =
      let t = obeys.truncate_part f [] (content f) refl in
      record { text = rw p t.1; no_error = t.0; is_rotated = ground (arith, ap length p) }
  rewrite-Left f r (g ∷ gs) front tail out e h ho hk p =
      elim (Bool-cases (length out == length (content f))) [
        | inl same ↦
            rw (hk, ho, same)
              (record {
                text = whole (ground (arith, same));
                no_error = refl;
                is_rotated = sym (ap not same);
              })
        | inr less ↦
            rw (hk, ho, less)
              (let (left, m, c) =
                  move_lines_lem (g ∷ gs) f [] front tail out (length front) 0 e refl (omega arith)
                    p in
                truncate_to-Left _ (move_lines io (g ∷ gs) f 0) (content f) out left
                  (m ∙ ap some (omega arith)) c less)
      ]
    where
      whole : length out ≡ length (content f) → content f ≡ out
      whole same =
          let sizes : (length front ≡ 0) × (length out ≡ length tail) = omega (
            arith,
            Parts-length (length front) (g ∷ gs) tail out p,
            ap length e,
            length-append front tail,
            same,
          ) in
          e
          ∙ ap (λ (x : Bytes). x ++ tail) (nil_of_length front sizes.0)
          ∙ sym (Parts-whole (length front) (g ∷ gs) tail out p sizes.1)
