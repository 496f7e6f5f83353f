-- ===== src/Agent/Docker/Follow/Frames.antt =====
-- Lines through the frames of a Docker log stream.
use breakerbox.Prelude.{
  ℕ, zero, suc, ◌+◌, ◌*◌, ◌/◌, ◌%◌, ◌≤◌, List, [], ◌∷◌, ◌++◌, some, ◌≡◌, refl, sym, ap, ◌∙◌, arith,
  All, leb, length, take, drop, length-append, ◌==◌, Bool-cases, inl, inr, true, false,
}
use mathlib.Core.List.{append_assoc, append-nil}
use breakerbox.Agent.TokenProxy.Sse.{split_lines, push_byte, trim_cr}
use breakerbox.Agent.TokenProxy.Chunks.{split_lines-append}
use breakerbox.Agent.Docker.Follow.{read_frame, trim_all, deliver, follow}

-- A frame as the engine writes it: the stream, three zeros, the size in four bytes, the payload.
abbrev pub encode : ℕ × List ℕ → List ℕ → List ℕ
encode (stream, payload) rest =
    let n = length payload in
    stream ∷ 0 ∷ 0 ∷ 0 ∷ n / 16_777_216 ∷ n / 65_536 % 256 ∷ n / 256 % 256 ∷ n % 256 ∷ payload
    ++ rest

unfoldable pub encode_all : List (ℕ × List ℕ) → List ℕ
encode_all [] = []
encode_all (f ∷ frames) = encode f (encode_all frames)

unfoldable pub payloads : List (ℕ × List ℕ) → List ℕ
payloads [] = []
payloads (f ∷ frames) = f.1 ++ payloads frames

unfoldable pub delivered : List (List (List ℕ)) → List (List ℕ)
delivered [] = []
delivered (lines ∷ batches) = lines ++ delivered batches

abbrev pub FitsFrame : ℕ × List ℕ → Type 0
FitsFrame f = suc (length f.1) ≤ 4_294_967_296

big_endian :
    (n : ℕ)
    → suc n ≤ 4_294_967_296
    → ((n / 16_777_216 * 256 + n / 65_536 % 256) * 256 + n / 256 % 256) * 256 + n % 256 ≡ n
big_endian n h = omega arith

take-append_left : (xs ys : List ℕ) → take (length xs) (xs ++ ys) ≡ xs
take-append_left [] ys = refl
take-append_left (x ∷ xs) ys = ap (λ l. x ∷ l) (take-append_left xs ys)

pub drop-append_left : (xs ys : List ℕ) → drop (length xs) (xs ++ ys) ≡ ys
drop-append_left [] ys = refl
drop-append_left (x ∷ xs) ys = drop-append_left xs ys

read_frame-encode :
    (f : ℕ × List ℕ) (rest : List ℕ) → FitsFrame f → read_frame (encode f rest) ≡ some (f.1, rest)
unfolding read_frame
read_frame-encode (stream, payload) rest fits =
    let whole : leb (length payload) (length (payload ++ rest)) ≡ true =
      ground (arith, length-append payload rest) in
    rw
      (
        big_endian (length payload) fits,
        whole,
        take-append_left payload rest,
        drop-append_left payload rest,
      )
      refl

trim_all-append : (xs ys : List (List ℕ)) → trim_all (xs ++ ys) ≡ trim_all xs ++ trim_all ys
unfolding trim_all
trim_all-append [] ys = refl
trim_all-append (x ∷ xs) ys = ap (λ l. trim_cr x ∷ l) (trim_all-append xs ys)

delivered-deliver :
    (lines : List (List ℕ)) (later : List (List (List ℕ)))
    → delivered (deliver lines later) ≡ lines ++ delivered later
unfolding delivered deliver
delivered-deliver [] later = refl
delivered-deliver (line ∷ lines) later = refl

pushed :
    (c : ℕ) (p : List (List ℕ) × List ℕ)
    → (c == 10) ≡ false
    → split_lines p.1 ≡ ([], p.1)
    → split_lines (push_byte c p).1 ≡ ([], (push_byte c p).1)
unfolding split_lines push_byte
pushed c ([], rest) other e = rw (other, e) refl
pushed c (l ∷ ls, rest) other e = e

-- What follows the last newline of a text holds no line.
pub rest_has_no_line : (s : List ℕ) → split_lines (split_lines s).1 ≡ ([], (split_lines s).1)
unfolding split_lines
rest_has_no_line [] = refl
rest_has_no_line (c ∷ s) = elim (Bool-cases (c == 10)) [
  | inl newline ↦ rw newline (rest_has_no_line s)
  | inr other ↦ rw other (pushed c (split_lines s) other (rest_has_no_line s))
]

follow_step :
    (fuel : ℕ) (pending body frame rest : List ℕ)
    → read_frame body ≡ some (frame, rest)
    → follow (suc fuel) pending body
      ≡ deliver
          (trim_all (split_lines (pending ++ frame)).0)
          (follow fuel (split_lines (pending ++ frame)).1 rest)
unfolding follow
follow_step fuel pending body frame rest e = rw (follow, e) refl

pending_lines :
    (frames : List (ℕ × List ℕ)) (fuel : ℕ) (pending : List ℕ)
    → All FitsFrame frames
    → suc (length frames) ≤ fuel
    → split_lines pending ≡ ([], pending)
    → delivered (follow fuel pending (encode_all frames))
      ≡ trim_all (split_lines (pending ++ payloads frames)).0
unfolding follow encode_all payloads delivered trim_all read_frame
pending_lines frames zero pending fits enough partial = ground arith
pending_lines [] (suc fuel) pending fits enough partial =
    sym (ap (λ s. trim_all (split_lines s).0) (append-nil pending) ∙ ap (λ p. trim_all p.0) partial)
pending_lines (f ∷ frames) (suc fuel) pending fits enough partial =
    let cut = split_lines (pending ++ f.1) in
    ap delivered (
      follow_step fuel pending (encode f (encode_all frames)) f.1 (encode_all frames)
        (read_frame-encode f (encode_all frames) fits.0))
    ∙ delivered-deliver (trim_all cut.0) (follow fuel cut.1 (encode_all frames))
    ∙ ap (λ l. trim_all cut.0 ++ l)
        (pending_lines frames fuel cut.1 fits.1 (omega arith) (rest_has_no_line (pending ++ f.1)))
    ∙ sym (trim_all-append cut.0 (split_lines (cut.1 ++ payloads frames)).0)
    ∙ ap (λ p. trim_all p.0) (sym (split_lines-append (pending ++ f.1) (payloads frames)))
    ∙ ap (λ s. trim_all (split_lines s).0) (append_assoc pending f.1 (payloads frames))

no_pending : split_lines [] ≡ ([], [])
unfolding split_lines
no_pending = refl

-- With fuel for more than the frames, each of less than 2^32 bytes, the lines that are delivered are
-- the complete lines of all payloads joined, less a carriage return at their ends, however the frames
-- cut them.
pub follow-lines :
    (frames : List (ℕ × List ℕ)) (fuel : ℕ)
    → All FitsFrame frames
    → suc (length frames) ≤ fuel
    → delivered (follow fuel [] (encode_all frames)) ≡ trim_all (split_lines (payloads frames)).0
follow-lines frames fuel fits enough = pending_lines frames fuel [] fits enough no_pending
