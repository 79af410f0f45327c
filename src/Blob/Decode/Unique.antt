-- ===== src/Blob/Decode/Unique.antt =====
-- What an object is does not depend on how it is found: its content is unique.
use fornacast.Prelude.{ℕ, zero, suc, ◌≡◌, sym, ap, ◌∙◌, List, Option, none, some, ◌∷◌}
use fornacast.Prelude.Bytes.{Bytes}
use fornacast.Receive.PackHeader.{Kind}
use fornacast.Blob.Stream.Inflating.{Inflation}
use fornacast.Blob.Delta.{DeltaInstruction, insert, copy}
use fornacast.Blob.Objects.{
  ObjectSource, loose, packed, ObjectMetadata, VerifiedDeltaBase, GuardedMetadata,
}
use fornacast.Blob.Loose.Format.{first_separator, Header-free}
use fornacast.Blob.Frames.Meaning.{Piece, Produces, Patches}
use fornacast.Blob.Decode.Contents.{Repository, EntryContent, EntrySound, Content, Sound}

Piece-unique :
    (base rest piece piece' left left' : Bytes) (instruction : DeltaInstruction)
    → Piece base instruction rest piece left
    → Piece base instruction rest piece' left'
    → (piece ≡ piece') × (left ≡ left')
Piece-unique base rest piece piece' left left' (insert size) (_, p, l) (_, p', l') =
    (p ∙ sym p', l ∙ sym l')
Piece-unique base rest piece piece' left left' (copy offset size) (_, p, l) (_, p', l') =
    (p ∙ sym p', l ∙ sym l')

Produces-unique :
    (n m : ℕ) (base delta result result' : Bytes)
    → Produces n base delta result
    → Produces m base delta result'
    → result ≡ result'
Produces-unique zero zero base delta result result' (_, e) (_, e') = e ∙ sym e'
Produces-unique zero (suc m) base delta result result' (used_up, e)
      (opcode, behind, rest, left, piece, later, instruction, first, decoded, made, whole, more) =
    cc
Produces-unique (suc n) zero base delta result result'
      (opcode, behind, rest, left, piece, later, instruction, first, decoded, made, whole, more)
      (used_up, e) =
    cc
Produces-unique (suc n) (suc m) base delta result result'
      (opcode, behind, rest, left, piece, later, instruction, first, decoded, made, whole, more)
      (
        opcode', behind', rest', left', piece', later', instruction', first', decoded', made',
        whole', more',
      ) =
    let same_opcode : opcode' ≡ opcode = cc in
    let same_behind : behind' ≡ behind = cc in
    let same_instruction : instruction' ≡ instruction = cc in
    let same_rest : rest' ≡ rest = cc in
    let (pieces, lefts) =
      Piece-unique base rest piece piece' left left' instruction made
        (rw (same_instruction, same_rest) at made') in
    let laters = Produces-unique n m base left later later' more (rw (sym lefts) at more') in
    whole ∙ rw (pieces, laters) (sym whole')

Patches-unique :
    (base delta result result' : Bytes)
    → Patches base delta result
    → Patches base delta result'
    → result ≡ result'
Patches-unique base delta result result' (behind, body, n, first, second, makes)
      (behind', body', m, first', second', makes') =
    let same_behind : behind' ≡ behind = cc in
    let same_body : body' ≡ body = cc (rw same_behind at second') in
    Produces-unique n m base body result result' makes (rw same_body at makes')

module _ {D : Type 0} (z : Inflation D) (repo : Repository) where
  entry_unique :
      (base_content base_content' : VerifiedDeltaBase → Bytes → Type 0) (guarded : GuardedMetadata)
      (source : ObjectSource) (kind : Option Kind) (decoded content content' : Bytes)
      → ((v : VerifiedDeltaBase) (base base' : Bytes)
          → base_content v base
          → base_content' v base'
          → base ≡ base')
      → EntryContent z base_content guarded source kind decoded content
      → EntryContent z base_content' guarded source kind decoded content'
      → content ≡ content'
  entry_unique base_content base_content' guarded source (some kind) decoded content content' unique
        e e' =
      sym e ∙ e'
  entry_unique base_content base_content' guarded source none decoded content content' unique
        (v, base, is_base, deeper, patches) (v', base', is_base', deeper', patches') =
      let same : v' ≡ v = cc in
      let bases = unique v base base' deeper (rw same at deeper') in
      Patches-unique base decoded content content' patches (rw (sym bases) at patches')

  entry-Content :
      (base_content base_sound : VerifiedDeltaBase → Bytes → Type 0) (guarded : GuardedMetadata)
      (source : ObjectSource) (kind : Option Kind) (decoded : Bytes) (expected : ObjectMetadata)
      (content : Bytes)
      → ((v : VerifiedDeltaBase) (base : Bytes) → base_sound v base → base_content v base)
      → EntrySound z base_sound guarded source kind decoded expected content
      → EntryContent z base_content guarded source kind decoded content
  entry-Content base_content base_sound guarded source (some kind) decoded expected content holds
        (same, matches) =
      same
  entry-Content base_content base_sound guarded source none decoded expected content holds
        (v, base, is_base, deeper, patches, _, _, _, _) =
      (v, base, is_base, holds v base deeper, patches)

  -- The content of an object does not depend on the bound of its chain.
  pub Content-unique :
      (n m : ℕ) (source : ObjectSource) (content content' : Bytes)
      → Content z repo n source content
      → Content z repo m source content'
      → content ≡ content'
  Content-unique zero m source content content' h h' = absurd h
  Content-unique (suc n) zero source content content' h h' = absurd h'
  Content-unique (suc n) (suc m) (loose db id) content content' (bytes, front, found, split, clean)
        (bytes', front', found', split', clean') =
      let same : bytes' ≡ bytes = cc in
      (first_separator 0 front front' content content' clean clean'
        (sym split ∙ ap z.plain (sym same) ∙ split')).1
  Content-unique (suc n) (suc m) (packed path offset) content content'
        (entry_end, pack, opened, bytes, ends, found, parts, slice, entry)
        (entry_end', pack', opened', bytes', ends', found', parts', slice', entry') =
      let same_end : entry_end' ≡ entry_end = cc in
      let same_pack : pack' ≡ pack = cc in
      let same_opened : opened' ≡ opened = cc (rw (same_end, same_pack) at parts') in
      let same_bytes : bytes' ≡ bytes = cc (rw same_opened at slice') in
      entry_unique (λ v base. Content z repo n v.base base) (λ v base. Content z repo m v.base base)
        repo.guarded (packed path offset) opened.entry.kind (z.plain bytes) content content'
        (λ v base base' h h'. Content-unique n m v.base base base' h h') entry
        (rw (same_opened, same_bytes) at entry')

  pub Sound-Content :
      (n : ℕ) (stack : List ObjectSource) (source : ObjectSource) (expected : ObjectMetadata)
      (content : Bytes)
      → Sound z repo n stack source expected content
      → Content z repo n source content
  Sound-Content zero stack source expected content sound = absurd sound
  Sound-Content (suc n) stack (loose db id) expected content
        (_, bytes, front, found, split, header, _, _, _, _) =
      (bytes, front, found, split, Header-free expected.kind expected.size front header)
  Sound-Content (suc n) stack (packed path offset) expected content
        (_, entry_end, pack, opened, bytes, ends, found, parts, slice, _, _, _, entry) =
      (
        entry_end,
        pack,
        opened,
        bytes,
        ends,
        found,
        parts,
        slice,
        entry-Content (λ v base. Content z repo n v.base base)
            (λ v base. Sound z repo n (packed path offset ∷ stack) v.base v.metadata base)
            repo.guarded (packed path offset) opened.entry.kind (z.plain bytes) expected content
            (λ v base h. Sound-Content n (packed path offset ∷ stack) v.base v.metadata base h)
            entry,
      )
