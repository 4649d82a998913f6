-- ===== src/Seglog/Frames.antt =====
-- What frames keep: a frame is read back, whatever follows it; an incomplete one is not.
use sq.Common.{
  ℕ, zero, suc, ◌+◌, ◌-◌, ◌%◌, ◌^◌, ◌≤◌, ◌<◌, ◌≡◌, refl, ap, sym, ◌∙◌, arith, true, false, ◌||◌,
  List, [], ◌∷◌, ◌++◌, none, some, length, take, drop, length-append, length-take, ltb, ◌==◌,
  take-append_length, drop-append_length, append_assoc, ==_refl, ltb→lt, lt→ltb, take-append,
  take-all, ◌⊎◌, Bool-cases, inl, inr, drop-drop, none≢some, ◌↔◌,
}
use sq.Store.Bytes.{put_u32, uint32, from-big_endian, from_big_endian, length-big_endian}
use sq.Seglog.Frame.{
  UpdateLaws, append_frame, append_frame_marshal, frame_header_len, max_frame_len, patch, read_body,
  read_frame, zeros,
}

pub length-put_u32 : (v : ℕ) → length (put_u32 v) ≡ 4
length-put_u32 v = unfold put_u32 in length-big_endian 4 v

uint32-put_u32 : (v : ℕ) → v < 2 ^ 32 → uint32 (put_u32 v) ≡ v
uint32-put_u32 v h = unfold put_u32 uint32 in from-big_endian 4 v (omega arith)

pub length-zeros : (n : ℕ) → length (zeros n) ≡ n
unfolding zeros
length-zeros zero = refl
length-zeros (suc n) = ap suc (length-zeros n)

patch_middle :
    (xs ys zs bs : List ℕ) (n : ℕ)
    → n ≡ length xs
    → length bs ≡ length ys
    → patch n bs (xs ++ (ys ++ zs)) ≡ xs ++ (bs ++ zs)
unfolding patch
patch_middle xs ys zs bs n e h =
    let front : take n (xs ++ (ys ++ zs)) ≡ xs = take-append_length xs (ys ++ zs) n e in
    let back : drop (n + length bs) (xs ++ (ys ++ zs)) ≡ zs =
      sym (drop-drop (length bs) n (xs ++ (ys ++ zs)))
      ∙ ap (drop (length bs)) (drop-append_length xs (ys ++ zs) n e)
      ∙ drop-append_length ys zs (length bs) h in
    rw (front, back) (append_assoc xs bs zs)

module _ (update : ℕ → List ℕ → ℕ) where
  -- The bytes of one frame.
  abbrev pub frame_of : ℕ → List ℕ → List ℕ
  frame_of typ payload =
      put_u32 ((1 + length payload) % 2 ^ 32)
      ++ (put_u32 (update (update 0 (typ ∷ [])) payload) ++ (typ ∷ payload))

  pub append_frame_lem :
      (dst : List ℕ) (typ : ℕ) (payload : List ℕ)
      → append_frame update dst typ payload ≡ dst ++ frame_of typ payload
  unfolding append_frame
  append_frame_lem dst typ payload =
      let size = put_u32 ((1 + length payload) % 2 ^ 32) in
      let sum = put_u32 (update (update 0 (typ ∷ [])) payload) in
      append_assoc (dst ++ (size ++ sum)) (typ ∷ []) payload
      ∙ append_assoc dst (size ++ sum) (typ ∷ payload)
      ∙ ap (◌++◌ dst) (append_assoc size sum (typ ∷ payload))

  pub length-frame_of :
      (typ : ℕ) (payload : List ℕ) → length (frame_of typ payload) ≡ 9 + length payload
  length-frame_of typ payload =
      let size = put_u32 ((1 + length payload) % 2 ^ 32) in
      let sum = put_u32 (update (update 0 (typ ∷ [])) payload) in
      omega (
        arith,
        length-append size (sum ++ (typ ∷ payload)),
        length-append sum (typ ∷ payload),
        length-put_u32 ((1 + length payload) % 2 ^ 32),
        length-put_u32 (update (update 0 (typ ∷ [])) payload),
      )

  -- readFrame on a header of two words and what follows it.
  read_frame-parts :
      (a b tail : List ℕ) (ln : ℕ)
      → length a ≡ 4
      → length b ≡ 4
      → uint32 a ≡ ln
      → ltb 0 ln ≡ true
      → ln ≤ max_frame_len
      → ln ≤ length tail
      → read_frame update (a ++ (b ++ tail)) ≡ read_body update ln b (take ln tail)
  unfolding read_frame
  read_frame-parts a b tail ln la lb e low high fits =
      let buf = a ++ (b ++ tail) in
      let size : length buf ≡ 8 + length tail =
        omega (arith, length-append a (b ++ tail), length-append b tail) in
      let first : take 4 buf ≡ a = take-append_length a (b ++ tail) 4 (sym la) in
      let second : drop 4 buf ≡ b ++ tail = drop-append_length a (b ++ tail) 4 (sym la) in
      let third : drop 8 buf ≡ tail =
        sym (drop-drop 4 4 buf) ∙ ap (drop 4) second ∙ drop-append_length b tail 4 (sym lb) in
      let sum : take 4 (b ++ tail) ≡ b = take-append_length b tail 4 (sym lb) in
      let long : ltb (length buf) 8 ≡ false = ground arith in
      let fine : (ln == 0 || ltb max_frame_len ln || ltb (length buf - 8) ln) ≡ false =
        ground arith in
      rw (first, second, third, sum, e, long, fine)

  -- Fewer bytes than a header has.
  pub read_frame-brief : (buf : List ℕ) → length buf < 8 → read_frame update buf ≡ none
  unfolding read_frame
  read_frame-brief buf h = rw (lt→ltb (length buf) 8 h) refl

  read_frame-refused :
      (a t : List ℕ) (ln : ℕ)
      → length a ≡ 4
      → uint32 a ≡ ln
      → (ln ≡ 0) ⊎ ((length t < 4 + ln) ⊎ (max_frame_len < ln))
      → read_frame update (a ++ t) ≡ none
  unfolding read_frame
  read_frame-refused a t ln la e why =
      let buf = a ++ t in
      let size : length buf ≡ 4 + length t = omega (arith, length-append a t) in
      let first : take 4 buf ≡ a = take-append_length a t 4 (sym la) in
      let bad : ltb (length buf) 8 ≡ false
          → (ln == 0 || ltb max_frame_len ln || ltb (length buf - 8) ln) ≡ true =
        λ l. elim why [
          | inl z ↦ rw z refl
          | inr (inl short) ↦ ground arith
          | inr (inr long) ↦ ground arith
        ] in
      elim (Bool-cases (ltb (length buf) 8)) [
        | inl l ↦ rw l refl
        | inr l ↦ rw (l, first, e, bad l) refl
      ]

  read_body-sum :
      (ln sum typ : ℕ) (payload : List ℕ)
      → sum < 2 ^ 32
      → update 0 (typ ∷ payload) ≡ sum
      → read_body update ln (put_u32 sum) (typ ∷ payload)
        ≡ some (record { typ = typ; payload = payload; size = 8 + ln })
  unfolding read_body
  read_body-sum ln sum typ payload h e = rw (e, uint32-put_u32 sum h, ==_refl sum)

  pub read_frame-frame_of :
      UpdateLaws update
      → (typ : ℕ) (payload rest : List ℕ) → 1 + length payload ≤ max_frame_len
      → read_frame update (frame_of typ payload ++ rest)
        ≡ some (record { typ = typ; payload = payload; size = 9 + length payload })
  read_frame-frame_of laws typ payload rest h =
      let ln = 1 + length payload in
      let crc = update (update 0 (typ ∷ [])) payload in
      let size = put_u32 (ln % 2 ^ 32) in
      let sum = put_u32 crc in
      let wraps : ln % 2 ^ 32 ≡ ln = omega arith in
      let shape : frame_of typ payload ++ rest ≡ size ++ (sum ++ ((typ ∷ payload) ++ rest)) =
        append_assoc size (sum ++ (typ ∷ payload)) rest
        ∙ ap (◌++◌ size) (append_assoc sum (typ ∷ payload) rest) in
      let cut : take ln ((typ ∷ payload) ++ rest) ≡ typ ∷ payload =
        take-append_length (typ ∷ payload) rest ln (omega arith) in
      rw shape (
        read_frame-parts size sum ((typ ∷ payload) ++ rest) ln (length-put_u32 (ln % 2 ^ 32))
          (length-put_u32 crc) (uint32-put_u32 (ln % 2 ^ 32) (omega arith) ∙ wraps) (ground arith) h
          (omega (arith, length-append (typ ∷ payload) rest))
        ∙ ap (read_body update ln sum) cut
        ∙ read_body-sum ln crc typ payload (laws.update-lt (update 0 (typ ∷ [])) payload)
            (laws.update-append 0 (typ ∷ []) payload)
        ∙ ap (λ (n : ℕ). some (record { typ = typ; payload = payload; size = n }))
            {x = 8 + (1 + length payload)} (omega arith))

  -- Fewer bytes than a frame has are no frame.
  pub read_frame-torn :
      (typ : ℕ) (payload : List ℕ) (n : ℕ)
      → 1 + length payload ≤ max_frame_len
      → n < 9 + length payload
      → read_frame update (take n (frame_of typ payload)) ≡ none
  read_frame-torn typ payload n h k =
      let ln = 1 + length payload in
      let size = put_u32 (ln % 2 ^ 32) in
      let tail = put_u32 (update (update 0 (typ ∷ [])) payload) ++ (typ ∷ payload) in
      let four : length size ≡ 4 = length-put_u32 (ln % 2 ^ 32) in
      elim (Bool-cases (ltb n 4)) [
        | inl l ↦
            read_frame-brief (take n (size ++ tail))
              (omega (arith, length-take n (size ++ tail), ltb→lt n 4 l))
        | inr l ↦
            let whole : take n size ≡ size = take-all n size (ground arith) in
            let less : length (take (n - length size) tail) < 4 + ln =
              omega (arith, length-take (n - length size) tail, ltb→lt n 4) in
            rw (take-append n size tail, whole)
              (read_frame-refused size (take (n - length size) tail) ln four
                (uint32-put_u32 (ln % 2 ^ 32) (omega arith) ∙ omega arith) (inr (inl less)))
      ]

  read_frame-oversize :
      (typ : ℕ) (payload rest : List ℕ)
      → max_frame_len < 1 + length payload
      → 1 + length payload < 2 ^ 32
      → read_frame update (frame_of typ payload ++ rest) ≡ none
  read_frame-oversize typ payload rest h fits =
      let ln = 1 + length payload in
      let size = put_u32 (ln % 2 ^ 32) in
      let tail = put_u32 (update (update 0 (typ ∷ [])) payload) ++ (typ ∷ payload) in
      rw (append_assoc size tail rest) (
        read_frame-refused size (tail ++ rest) ln (length-put_u32 (ln % 2 ^ 32))
          (uint32-put_u32 (ln % 2 ^ 32) (omega arith) ∙ omega arith) (inr (inr h)))

  -- A frame that appendFrame writes, of a record of less than 4 GiB, is read back, whatever follows
  -- it, exactly when the record has at most 64 MiB with its type: appendFrame does not look at the
  -- size.
  pub read_frame-append_frame :
      UpdateLaws update
      → (typ : ℕ) (payload rest : List ℕ) → 1 + length payload < 2 ^ 32
      → (read_frame update (append_frame update [] typ payload ++ rest)
          ≡ some (record { typ = typ; payload = payload; size = 9 + length payload }))
        ↔ (1 + length payload ≤ max_frame_len)
  read_frame-append_frame laws typ payload rest fits =
      let same : append_frame update [] typ payload ++ rest ≡ frame_of typ payload ++ rest =
        ap (λ (l : List ℕ). l ++ rest) (append_frame_lem [] typ payload) in
      (
        λ e. elim (Bool-cases (ltb max_frame_len (1 + length payload))) [
          | inl long ↦ absurd (
              none≢some (
                sym (read_frame-oversize typ payload rest (ltb→lt _ _ long) fits)
                ∙ ap (read_frame update) (sym same)
                ∙ e))
          | inr short ↦ ground arith
        ],
        λ h. ap (read_frame update) same ∙ read_frame-frame_of laws typ payload rest h,
      )

  pub read_frame-zeros : (n : ℕ) → read_frame update (zeros n) ≡ none
  unfolding zeros
  read_frame-zeros zero = read_frame-brief [] (omega arith)
  read_frame-zeros (suc zero) = read_frame-brief (0 ∷ []) (omega arith)
  read_frame-zeros (suc (suc zero)) = read_frame-brief (0 ∷ 0 ∷ []) (omega arith)
  read_frame-zeros (suc (suc (suc zero))) = read_frame-brief (0 ∷ 0 ∷ 0 ∷ []) (omega arith)
  read_frame-zeros (suc (suc (suc (suc n)))) =
      read_frame-refused (0 ∷ 0 ∷ 0 ∷ 0 ∷ []) (zeros n) 0 refl
        (unfold uint32 from_big_endian in refl) (inl refl)

  -- appendFrameMarshal writes byte for byte what appendFrame writes, whatever stands before it.
  pub append_frame_marshal_lem :
      UpdateLaws update
      → (dst : List ℕ) (typ : ℕ) (payload : List ℕ)
      → append_frame_marshal update dst typ (some payload)
        ≡ some (append_frame update dst typ payload)
  unfolding append_frame_marshal zeros
  append_frame_marshal_lem laws dst typ payload =
      let base = length dst in
      let tail = typ ∷ payload in
      let four = zeros 4 in
      let size = put_u32 ((1 + length payload) % 2 ^ 32) in
      let sum = put_u32 (update (update 0 (typ ∷ [])) payload) in
      let out : (dst ++ (zeros 8 ++ (typ ∷ []))) ++ payload ≡ dst ++ (four ++ (four ++ tail)) =
        append_assoc dst (zeros 8 ++ (typ ∷ [])) payload ∙ (unfold zeros in refl) in
      let here : base + 4 ≡ length (dst ++ size) =
        omega (arith, length-append dst size, length-put_u32 ((1 + length payload) % 2 ^ 32)) in
      let long : length (dst ++ (four ++ (four ++ tail))) - base - frame_header_len - 1
          ≡ length payload =
        omega (arith, length-append dst (four ++ (four ++ tail))) in
      let sized : patch base size (dst ++ (four ++ (four ++ tail)))
          ≡ (dst ++ size) ++ (four ++ tail) =
        patch_middle dst four (four ++ tail) size base refl
          (length-put_u32 ((1 + length payload) % 2 ^ 32))
        ∙ sym (append_assoc dst size (four ++ tail)) in
      let body : drop (base + 8) ((dst ++ size) ++ (four ++ tail)) ≡ tail =
        sym (
          drop-drop 4 (base + 4) ((dst ++ size) ++ (four ++ tail))
          ∙ ap (λ (k : ℕ). drop k ((dst ++ size) ++ (four ++ tail))) {x = base + 4 + 4}
              {y = base + 8} (omega arith))
        ∙ ap (drop 4) (drop-append_length (dst ++ size) (four ++ tail) (base + 4) here) in
      let summed : patch (base + 4) sum ((dst ++ size) ++ (four ++ tail))
          ≡ (dst ++ size) ++ (sum ++ tail) =
        patch_middle (dst ++ size) four tail sum (base + 4) here
          (length-put_u32 (update (update 0 (typ ∷ [])) payload)) in
      rw (out, long, sized, body, laws.update-append 0 (typ ∷ []) payload, summed)
        (ap some (append_assoc dst size (sum ++ tail) ∙ sym (append_frame_lem dst typ payload)))
