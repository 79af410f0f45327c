-- ===== src/Blob/Stream/Inflating.antt =====
-- What is known of an inflater and of the reads of a file, and what one call of the inflater does to
-- the bytes that are still to come: `inflate_input`.
use fornacast.Prelude.{
  ℕ, zero, suc, ◌∷◌, subst, false, ok, Option, ◌<◌, ◌+◌, ◌-◌, ◌≤◌, ◌≡◌, refl, sym, ap, ◌∙◌, Bool,
  true, Bool-cases, inl, inr, some, [], ◌++◌, length, length-take, take, drop, take-append-drop,
  length-drop, length-append, String, arith, ◌==◌, not, ◌&&◌,
}
use fornacast.Prelude
use fornacast.Prelude.Bytes.{Bytes}
use fornacast.Prelude.Word.{u64_mod, checked_add}
use fornacast.Blob.Failure.{Error, corrupt, ok_or}
use fornacast.Blob.Budget.{DecodeWorkBudget}
use fornacast.Blob.Run.{Later-refl, Bounded}
use fornacast.Blob.Run.Keeps.{
  Keeps, Keeps-try, Keeps-charge_compressed_input, Keeps-charge_inflated_output,
}
use fornacast.Blob.Zlib.{
  Status, Inflater, FileRead, CompressedSource, slice, file, Inflated, inflate_input,
}
use fornacast.Blob.Stream.{compressed_left, is_end}

-- `Left d input left`: with the input still to come, the inflater still gives `left`. A call uses
-- up a part of its input, writes the beginning of what is left, and keeps that up; at the end of
-- the stream nothing is left.
abbrev pub Inflates : {D : Type 0} → Inflater D → (D → Bytes → Bytes → Type 0) → Type 0
Inflates {D} z Left =
    (d : D) (chunk rest left : Bytes) (room : ℕ) (finish : Bool) (status : Status) (written : Bytes)
    (d' : D)
    → Left d (chunk ++ rest) left
    → z.decompress d chunk room finish ≡ some (status, written, d')
    → (z.total_in d' - z.total_in d ≤ length chunk)
      × (later : Bytes) × (left ≡ written ++ later)
      × (is_end status ≡ true → later ≡ [])
      × Left d' (drop (z.total_in d' - z.total_in d) chunk ++ rest) later

-- `Valid d input left`: the input is the rest of one compressed stream, and `left` the rest of its
-- bytes. A call that is given input, if there is any, and room for output succeeds, makes progress
-- and does not fill more than the room. The stream ends where the input ends.
abbrev pub Works : {D : Type 0} → Inflater D → (D → Bytes → Bytes → Type 0) → Type 0
Works {D} z Valid =
    (d : D) (chunk rest left : Bytes) (room : ℕ) (finish : Bool)
    → Valid d (chunk ++ rest) left
    → 0 < room
    → (chunk ≡ [] → rest ≡ [])
    → (r : Status × Bytes × D) × (z.decompress d chunk room finish ≡ some r)
      × (length r.1 ≤ room)
      × (z.total_out r.2 ≡ z.total_out d + length r.1)
      × (is_end r.0 ≡ false
          → (0 < z.total_in r.2 - z.total_in d + length r.1)
            × ((later : Bytes)
                → left ≡ r.1 ++ later
                → Valid r.2 (drop (z.total_in r.2 - z.total_in d) chunk ++ rest) later))
      × (is_end r.0 ≡ true → drop (z.total_in r.2 - z.total_in d) chunk ++ rest ≡ [])

-- Reads of a file succeed, and give nothing at its end only.
abbrev pub Reads : FileRead → Type 0
Reads read =
    (rest : Bytes) (limit : ℕ)
    → 0 < limit
    → (n : ℕ) × (read rest limit ≡ some n) × (n ≤ length rest) × (n ≡ 0 → rest ≡ [])

-- An inflater and the reads of a file, with what is known of them: what the inflater still gives,
-- that a fresh one gives the plain bytes of its input, and how it works on a valid input.
pub record Inflation (D : Type 0) : Type 1 where
  pub inflater : Inflater D
  pub read : FileRead
  pub Left : D → Bytes → Bytes → Type 0
  pub law : Inflates inflater Left
  pub plain : Bytes → Bytes
  pub starts : (bytes : Bytes) → Left inflater.fresh bytes (plain bytes)
  pub fresh_out : inflater.total_out inflater.fresh ≡ 0
  pub Valid : D → Bytes → Bytes → Type 0
  pub works : Works inflater Valid

pub take_nothing : (n : ℕ) (bs : Bytes) → (0 < length bs → 0 < n) → take n bs ≡ [] → drop n bs ≡ []
take_nothing zero [] some_byte e = refl
take_nothing zero (x ∷ bs) some_byte e = absurd (omega (arith, some_byte (omega arith)))
take_nothing (suc n) [] some_byte e = refl
take_nothing (suc n) (x ∷ bs) some_byte e = cc

pub drop_nothing : (n : ℕ) (bs : Bytes) → drop n bs ≡ [] → length bs ≤ n
drop_nothing n bs e = omega (arith, length-drop n bs, ap length e)

pub first_nothing : (xs ys : Bytes) → xs ++ ys ≡ [] → xs ≡ []
first_nothing [] ys e = refl
first_nothing (x ∷ xs) ys e = cc

pub ok_or-some : {A : Type 0} (o : Option A) (e : Error) (a : A) → ok_or o e ≡ ok a → o ≡ some a
ok_or-some Prelude.none e a h = cc
ok_or-some (some x) e a h = cc

checked_add-ok : (m n p : ℕ) (e : Error) → ok_or (checked_add m n) e ≡ ok p → p ≡ m + n
checked_add-ok m n p e h = ground arith

module _ {D : Type 0} (z : Inflation D) where
  -- A source whose reads succeed and whose positions fit.
  abbrev pub Intact : CompressedSource → Type 0
  Intact (slice bytes position) = (position ≤ length bytes) × (length bytes < u64_mod)
  Intact (file rest buffer position size eof) =
      (position ≤ length buffer)
      × (length buffer + length rest < u64_mod)
      × (0 < size)
      × (eof ≡ true → rest ≡ [])
      × Reads z.read

  -- What a call on a valid input does.
  abbrev pub Progress : D → ℕ → Inflated D → Bytes → Type 0
  Progress d room step later =
      Intact step.source
      × (length step.written ≤ room)
      × (z.inflater.total_out step.inflate ≡ z.inflater.total_out d + length step.written)
      × (is_end step.status ≡ false
          → (0 < step.consumed + length step.written)
            × z.Valid step.inflate (compressed_left step.source) later)
      × (is_end step.status ≡ true → compressed_left step.source ≡ [])

  module _ (G : Type 0) where
    -- What a call leaves, and that it used up what it says.
    abbrev pub Stepped : D → ℕ → Bytes → ℕ → Inflated D → Type 0
    Stepped d room left before step =
        (step.consumed + length (compressed_left step.source) ≡ before)
        × (later : Bytes) × (left ≡ step.written ++ later)
        × (is_end step.status ≡ true → later ≡ [])
        × z.Left step.inflate (compressed_left step.source) later
        × (G → Progress d room step later)

    pub inflate_input-Stepped :
        (d : D) (input rest left : Bytes) (eof : Bool) (out_len position before : ℕ)
        (at_position : ℕ → CompressedSource) (detail : String) (b : DecodeWorkBudget)
        → Bounded b
        → z.Left d (input ++ rest) left
        → length (input ++ rest) ≡ before
        → ((n : ℕ)
            → n ≤ length input
            → compressed_left (at_position (position + n)) ≡ drop n input ++ rest)
        → (G
            → z.Valid d (input ++ rest) left
              × (0 < out_len)
              × (input ≡ [] → rest ≡ [])
              × (position + length input < u64_mod)
              × ((n : ℕ) → n ≤ length input → Intact (at_position (position + n))))
        → Keeps G b
            (Stepped d out_len left before)
            (inflate_input z.inflater d input eof out_len position at_position detail b)
    unfolding inflate_input
    inflate_input-Stepped d input rest left eof out_len position before at_position detail b bound
          pending size here valid =
        let answer = z.inflater.decompress d input out_len eof in
        let works : G → _ =
          λ g. let v = valid g in z.works d input rest left out_len eof v.0 v.1 v.2 in
        Keeps-try G (ok_or answer (corrupt detail)) _ _ b (λ g. rw (works g).1 tt)
          λ r made.
            let call : answer ≡ some r = ok_or-some answer (corrupt detail) r made in
            let consumed = z.inflater.total_in r.2 - z.inflater.total_in d in
            let step = z.law d input rest left out_len eof r.0 r.1 r.2 pending call in
            Keeps-charge_compressed_input G consumed _ _ b bound λ b2 bound2.
              Keeps-charge_inflated_output G (z.inflater.total_out r.2 - z.inflater.total_out d) _ _
                b2 bound2
                λ b3 bound3.
                  Keeps-try G
                    (ok_or (checked_add position consumed)
                      (corrupt "compressed input position overflow"))
                    _ _ b3 (λ g. let room = (valid g).3 in let fits = step.0 in ground arith)
                    λ p e.
                      let at : p ≡ position + consumed =
                        checked_add-ok position consumed p
                          (corrupt "compressed input position overflow") e in
                      let left_now : compressed_left (at_position p) ≡ drop consumed input ++ rest =
                        rw at (here consumed step.0) in
                      (
                        Later-refl b3,
                        (
                          rw left_now (
                              omega (
                                arith,
                                size,
                                step.0,
                                length-append input rest,
                                length-append (drop consumed input) rest,
                                length-drop consumed input,
                              )),
                          step.1,
                          step.2,
                          step.3,
                          rw left_now step.4,
                          λ g.
                              let w = works g in
                              let same : w.0 ≡ r = cc in
                              let fits = subst (λ x. length x.1 ≤ out_len) same w.2 in
                              (
                                rw at ((valid g).4 consumed step.0),
                                fits,
                                subst
                                    (λ x.
                                      z.inflater.total_out x.2
                                      ≡ z.inflater.total_out d + length x.1)
                                    same w.3,
                                λ goes_on.
                                    let more =
                                      subst
                                        (λ x.
                                          is_end x.0 ≡ false
                                          → (0
                                              < z.inflater.total_in x.2
                                                - z.inflater.total_in d
                                                + length x.1)
                                            × ((later : Bytes)
                                                → left ≡ x.1 ++ later
                                                → z.Valid x.2
                                                    (drop
                                                        (z.inflater.total_in x.2
                                                          - z.inflater.total_in d)
                                                        input
                                                      ++ rest)
                                                    later))
                                        same w.4 goes_on in
                                    (more.0, rw left_now (more.1 step.1 step.2)),
                                λ ends.
                                    left_now
                                    ∙ subst
                                        (λ x.
                                          is_end x.0 ≡ true
                                          → drop (z.inflater.total_in x.2 - z.inflater.total_in d)
                                                input
                                              ++ rest
                                            ≡ [])
                                        same w.5 ends,
                              ),
                        ),
                      )
