-- ===== src/Blob/Stream/Appends.antt =====
-- What an append to a sink does to the bytes that a stream still gives: `append_exact`.
use fornacast.Prelude.{
  ℕ, zero, suc, ◌+◌, ◌-◌, ◌≤◌, ◌<◌, ◌≡◌, sym, ap, ◌∙◌, ◌++◌, append-nil, append_assoc, length,
  length-take, take, drop, length-drop, ok, arith, min,
}
use fornacast.Prelude.Bytes.{Bytes}
use fornacast.Prelude.Slices.{drop_plus, take_plus}
use fornacast.Blob.Budget.{DecodeWorkBudget}
use fornacast.Blob.Run.{Later-refl, Later-Bounded, Bounded}
use fornacast.Blob.Run.Keeps.{Keeps, Keeps-bind, Keeps-imply, Keeps-try, Keeps-check_stop}
use fornacast.Blob.Stream.{
  InflatedStream, available, buffered, required, append_rounds, append_exact,
}
use fornacast.Blob.Stream.Inflating.{Inflation}
use fornacast.Blob.Stream.Refills.{Filled, Pending}
use fornacast.Blob.Stream.Required.{required-Filled}
use fornacast.Blob.Stream.Reads.{Output, consume-Pending, wanted}

module _ {D : Type 0} (z : Inflation D) (G : Type 0) (total : ℕ) where
  module _ {S : Type 0} (out : Output S) where
    append_rounds-Pending :
        (rounds count spare : ℕ) (s : InflatedStream D) (output : S) (left : Bytes)
        (b : DecodeWorkBudget)
        → Bounded b
        → count ≤ rounds
        → Pending z G total s left
        → (G → (count ≤ length left) × out.Room output (count + spare))
        → Keeps G b
            (λ r.
              (count ≤ length left)
              × Pending z G total r.0 (drop count left)
              × (out.content r.1 ≡ out.content output ++ take count left)
              × (G → out.Room r.1 spare))
            (append_rounds z.inflater z.read out.sink rounds count s output b)
    unfolding append_rounds
    append_rounds-Pending rounds zero spare s output left b bound enough pending fits = (
      Later-refl b,
      (
        omega arith,
        pending,
        sym (append-nil (out.content output)),
        λ g. let same : 0 + spare ≡ spare = omega arith in rw same at (fits g).1,
      ),
    )
    append_rounds-Pending zero (suc n) spare s output left b bound enough pending fits =
        absurd (omega arith)
    append_rounds-Pending (suc rounds) (suc n) spare s output left b bound enough pending fits =
        Keeps-check_stop G _ _ b bound λ b1 bound1.
          let asked = min (suc n) s.size in
          Keeps-bind G (λ s'. Filled z G total asked s' left × (0 < length (buffered s'))) _
            (required z.inflater z.read asked s) _ b1
            (required-Filled z G total asked s left b1 bound1 pending
              (wanted z G total n s left pending λ g. (fits g).0))
            λ s' b2 l2 (pending', some_left).
              let k = min (available s') (suc n) in
              let held = length-drop s'.output_position s'.output in
              let gone =
                consume-Pending z G total asked k s' left (omega (arith, held))
                  (λ g. omega (arith, held, (pending'.4 g).1)) pending' in
              let chunk = take k (buffered s') in
              let long : length chunk ≡ k = omega (arith, held, length-take k (buffered s')) in
              let all : k + (suc n - k) ≡ suc n = omega arith in
              let taken : G
                  → (o : S) × (out.sink.append chunk output ≡ ok o)
                    × out.Room o (suc n - k + spare) =
                λ g.
                  let same : suc n + spare ≡ length chunk + (suc n - k + spare) =
                    omega (arith, long, all) in
                  out.takes chunk output (suc n - k + spare) (rw same at (fits g).1)
                    (omega (arith, long, held, (pending'.4 g).1, (pending.4 g).0.0.3)) in
              Keeps-try G (out.sink.append chunk output) _ _ b2 (λ g. rw (taken g).1 tt)
                λ o e.
                  let added : out.content o ≡ out.content output ++ take k left =
                    out.appends chunk output o e ∙ ap (λ x. out.content output ++ x) (sym gone.0) in
                  let rest = record s' { output_position = s'.output_position + k } in
                  Keeps-imply G
                    (λ r.
                      (suc n - k ≤ length (drop k left))
                      × Pending z G total r.0 (drop (suc n - k) (drop k left))
                      × (out.content r.1 ≡ out.content o ++ take (suc n - k) (drop k left))
                      × (G → out.Room r.1 spare))
                    (λ r.
                      (suc n ≤ length left)
                      × Pending z G total r.0 (drop (suc n) left)
                      × (out.content r.1 ≡ out.content output ++ take (suc n) left)
                      × (G → out.Room r.1 spare))
                    b2 (append_rounds z.inflater z.read out.sink rounds (suc n - k) rest o b2)
                    (λ r (fits', now, holds, room). (
                      omega (arith, fits', gone.1, length-drop k left),
                      rw (drop_plus k (suc n - k) left, all) at now,
                      holds
                          ∙ ap (λ x. x ++ take (suc n - k) (drop k left)) added
                          ∙ append_assoc (out.content output) (take k left)
                              (take (suc n - k) (drop k left))
                          ∙ ap (λ x. out.content output ++ x)
                              (take_plus k (suc n - k) left ∙ ap (λ m. take m left) all),
                      room,
                    ))
                    (append_rounds-Pending rounds (suc n - k) spare rest o (drop k left) b2
                      (Later-Bounded b1 b2 l2 bound1) (omega (arith, enough, some_left, held))
                      gone.2
                      λ g.
                        let t = taken g in
                        let same : t.0 ≡ o = cc in
                        (omega (arith, (fits g).0, length-drop k left), rw same at t.2))

    pub append_exact-Pending :
        (count spare : ℕ) (s : InflatedStream D) (output : S) (left : Bytes) (b : DecodeWorkBudget)
        → Bounded b
        → Pending z G total s left
        → (G → (count ≤ length left) × out.Room output (count + spare))
        → Keeps G b
            (λ r.
              (count ≤ length left)
              × Pending z G total r.0 (drop count left)
              × (out.content r.1 ≡ out.content output ++ take count left)
              × (G → out.Room r.1 spare))
            (append_exact z.inflater z.read out.sink count s output b)
    unfolding append_exact
    append_exact-Pending count spare s output left b bound pending fits =
        append_rounds-Pending count count spare s output left b bound (omega arith) pending fits
