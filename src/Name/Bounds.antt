-- ===== src/Name/Bounds.antt =====
-- `parse_name` on any input: it ends, and what it returns is in bounds.
use shard_dns.Name.{
  ParseError, stuck, NameState, NameStep, stop, go, end_step, add_label, label_step, pointer_step,
  name_step, parse_name_loop, start_at, parse_name,
}
use shard_dns.Prelude.{
  ℕ, zero, suc, ◌+◌, ◌-◌, ◌≤◌, ◌<◌, true, false, [], ◌∷◌, ◌++◌, ◌≡◌, ◌≢◌, refl, arith, Bytes,
  length, length-append, length-take, slice, drop, get_or, is_empty, Outcome, ok, err,
}

-- What the loop keeps.
record InRange (buf : Bytes) (s : NameState) : Type 0 where
  len_pos : 1 ≤ s.name_len
  len_max : s.name_len ≤ 255
  hops_max : s.hops ≤ 16
  text_max : is_empty s.text ≡ false → length s.text + 2 ≤ s.name_len
  end_max : s.followed ≡ true → s.end_off ≤ length buf

-- What a round leaves: a result in range, or variables in range with less to do.
abbrev StepOk : Bytes → NameState → NameStep → Type 0
StepOk buf s (stop (ok (text, end))) = (length text ≤ 253) × (end ≤ length buf) × (1 ≤ length text)
StepOk buf s (stop (err e)) = e ≢ stuck
StepOk buf s (go s') = InRange buf s' × (s.name_len + s.hops < s'.name_len + s'.hops)

add_label_bound :
    (text label : Bytes) (b n : ℕ)
    → length label ≤ b
    → 1 ≤ n
    → (is_empty text ≡ false → length text + 2 ≤ n)
    → length (add_label text label) + 2 ≤ n + (1 + b)
unfolding add_label
add_label_bound [] label b n h p k = omega arith
add_label_bound (x ∷ text) label b n h p k = omega (
  arith,
  k refl,
  length-append (x ∷ text) (b'.' ∷ []),
  length-append ((x ∷ text) ++ (b'.' ∷ [])) label,
)

slice-le : (lo n : ℕ) (buf : Bytes) → length (slice lo (lo + n) buf) ≤ n
slice-le lo n buf = omega (arith, length-take (lo + n - lo) (drop lo buf))

end_step-StepOk :
    (buf : Bytes) (s : NameState) → InRange buf s → s.next < length buf → StepOk buf s (end_step s)
unfolding end_step
end_step-StepOk buf s h lt = ground arith

label_step-StepOk :
    (buf : Bytes) (s : NameState) (b : ℕ) → InRange buf s → StepOk buf s (label_step buf s b)
unfolding label_step
label_step-StepOk buf s b h =
    let label = slice (s.next + 1) (s.next + 1 + b) buf in
    let short = slice-le (s.next + 1) b buf in
    ground (arith, add_label_bound s.text label b s.name_len short h.len_pos h.text_max)

pointer_step-StepOk :
    (buf : Bytes) (s : NameState) (b : ℕ) → InRange buf s → StepOk buf s (pointer_step buf s b)
unfolding pointer_step
pointer_step-StepOk buf s b h = ground arith

name_step-StepOk : (buf : Bytes) (s : NameState) → InRange buf s → StepOk buf s (name_step buf s)
unfolding name_step
name_step-StepOk buf s h = ground (
  arith,
  end_step-StepOk buf s h,
  label_step-StepOk buf s (get_or buf s.next 0) h,
  pointer_step-StepOk buf s (get_or buf s.next 0) h,
)

-- What `parse_name` may answer: a text of 1 to 253 bytes and an end within the buffer, or one
-- of the errors of the source.
abbrev pub IsAnswer : Bytes → Outcome ParseError (Bytes × ℕ) → Type 0
IsAnswer buf (ok (text, end)) = (length text ≤ 253) × (end ≤ length buf) × (1 ≤ length text)
IsAnswer buf (err e) = e ≢ stuck

after_step :
    (fuel : ℕ) (buf : Bytes) (s : NameState) (r : NameStep)
    → StepOk buf s r
    → ((s' : NameState)
        → InRange buf s'
        → s.name_len + s.hops < s'.name_len + s'.hops
        → IsAnswer buf (parse_name_loop fuel buf s'))
    → IsAnswer buf (elim r [ stop a ↦ a | go s' ↦ parse_name_loop fuel buf s' ])
after_step fuel buf s (stop (ok a)) h k = h
after_step fuel buf s (stop (err e)) h k = h
after_step fuel buf s (go s') h k = k s' h.0 h.1

parse_name_loop-IsAnswer :
    (fuel : ℕ) (buf : Bytes) (s : NameState)
    → InRange buf s
    → 271 < fuel + (s.name_len + s.hops)
    → IsAnswer buf (parse_name_loop fuel buf s)
unfolding parse_name_loop
parse_name_loop-IsAnswer zero buf s h m = absurd (omega arith)
parse_name_loop-IsAnswer (suc fuel) buf s h m =
    after_step fuel buf s (name_step buf s) (name_step-StepOk buf s h)
      (λ s' h' more. parse_name_loop-IsAnswer fuel buf s' h' (omega arith))

-- On every buffer and offset `parse_name` ends, with no fuel left wanting: it returns a text of
-- 1 to 253 bytes with an end offset inside the buffer, or one of the source's errors.
pub parse_name-IsAnswer : (buf : Bytes) (offset : ℕ) → IsAnswer buf (parse_name buf offset)
unfolding parse_name
parse_name-IsAnswer buf offset =
    parse_name_loop-IsAnswer 272 buf (start_at offset)
      (record {
        len_pos = omega arith;
        len_max = omega arith;
        hops_max = omega arith;
        text_max = λ e. cc;
        end_max = λ e. cc;
      })
      (omega arith)
