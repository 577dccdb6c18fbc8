-- ===== src/Pipe/Frames.antt =====
-- ipc/fifo.c: the messages in a pipe, each behind its length.
use tp1_so_2c.Base.{
  ℕ, zero, suc, ◌/◌, ◌≤◌, ◌≡◌, refl, ap, ap₂, sym, ◌∙◌, List, [], ◌∷◌, ◌++◌, arith, min, length,
  length-append, length-take, take, drop, take-min, take-prefix, drop-prefix,
}
use mathlib.Core.List.{append_assoc}
use tp1_so_2c.Pipe.{
  ipc_max_packet_len, size_of_size, size_bytes, size_of_bytes, packet, returns, read_payload,
  ipc_read,
}

pub length-size_bytes : (k n : ℕ) → length (size_bytes k n) ≡ k
unfolding size_bytes
length-size_bytes zero n = refl
length-size_bytes (suc k) n = ap suc (length-size_bytes k (n / 256))

size_of_bytes-size_bytes : (n : ℕ) → n ≤ 512 → size_of_bytes (size_bytes 8 n) ≡ n
unfolding size_bytes size_of_bytes
size_of_bytes-size_bytes n h = omega arith

-- A message with its length in front.
abbrev pub frame : List ℕ → List ℕ
frame m = size_bytes size_of_size (length m) ++ m

-- The pipe that holds some messages.
abbrev pub frames : List (List ℕ) → List ℕ
frames [] = []
frames (m ∷ ms) = frame m ++ frames ms

-- No message is longer than a packet.
abbrev pub AllFit : List (List ℕ) → Type 0
AllFit [] = Unit
AllFit (m ∷ ms) = (length m ≤ ipc_max_packet_len) × AllFit ms

pub frames-append : (ms ns : List (List ℕ)) → frames (ms ++ ns) ≡ frames ms ++ frames ns
frames-append [] ns = refl
frames-append (m ∷ ms) ns =
    ap (λ l. frame m ++ l) (frames-append ms ns)
    ∙ sym (append_assoc (frame m) (frames ms) (frames ns))

-- What a write makes of a message that is too long.
abbrev pub cut : List ℕ → List ℕ
cut buff = take ipc_max_packet_len buff

min_comm : (m n : ℕ) → min m n ≡ min n m
min_comm m n = omega arith

pub packet-frame : (buff : List ℕ) → packet buff ≡ frame (cut buff)
unfolding packet
packet-frame buff =
    ap₂ (λ n (l : List ℕ). size_bytes size_of_size n ++ l)
      (min_comm (length buff) ipc_max_packet_len ∙ sym (length-take ipc_max_packet_len buff))
      (ap (λ k. take k buff) (min_comm (length buff) ipc_max_packet_len)
        ∙ take-min ipc_max_packet_len buff)

ipc_read_whole :
    (pipe : List ℕ) (len : ℕ)
    → size_of_size ≤ length pipe
    → ipc_read pipe len
      ≡ read_payload len (size_of_bytes (take size_of_size pipe)) (drop size_of_size pipe)
unfolding ipc_read
ipc_read_whole [] len h = absurd (omega arith)
ipc_read_whole (b ∷ bs) len h = ground arith

-- `read_payload` at a count that is within the bounds.
payload_within :
    (len count : ℕ) (pipe : List ℕ)
    → count ≤ ipc_max_packet_len
    → len ≤ ipc_max_packet_len
    → read_payload len count pipe ≡ returns (drop count pipe) (take len (take count pipe))
unfolding read_payload
payload_within len count pipe h k = ground arith

pub read_frame :
    (m rest : List ℕ) (len : ℕ)
    → length m ≤ ipc_max_packet_len
    → len ≤ ipc_max_packet_len
    → ipc_read (frame m ++ rest) len ≡ returns rest (take len m)
read_frame m rest len fits small =
    let header = size_bytes size_of_size (length m) in
    let whole : frame m ++ rest ≡ header ++ (m ++ rest) = append_assoc header m rest in
    let head_len : length header ≡ 8 = length-size_bytes 8 (length m) in
    let head : take 8 (header ++ (m ++ rest)) ≡ header =
      ap (λ k. take k (header ++ (m ++ rest))) (sym head_len) ∙ take-prefix header (m ++ rest) in
    let tail : drop 8 (header ++ (m ++ rest)) ≡ m ++ rest =
      ap (λ k. drop k (header ++ (m ++ rest))) (sym head_len) ∙ drop-prefix header (m ++ rest) in
    ap (λ p. ipc_read p len) whole
    ∙ ipc_read_whole (header ++ (m ++ rest)) len
        (omega (arith, head_len, length-append header (m ++ rest)))
    ∙ ap₂ (read_payload len) (ap size_of_bytes head ∙ size_of_bytes-size_bytes (length m) fits) tail
    ∙ payload_within len (length m) (m ++ rest) fits small
    ∙ ap₂ (λ p bs. returns p (take len bs)) (drop-prefix m rest) (take-prefix m rest)
