-- ===== src/Md5/Fill.antt =====
-- The buffer of the context, and the steps of the update that fill it and take whole blocks.
use crossnook.Base.{
  ℕ, suc, ◌+◌, ◌≤◌, ◌<◌, ◌≡◌, refl, ap, ◌∙◌, sym, arith, List, [], ◌∷◌, ◌++◌, ◌==◌, ltb, Bool-cases,
  inl, inr, length, take, drop, ◌^◌, true, false, sub64, ◌-◌, drop_all, memcpy, length-memcpy,
  take-memcpy, take_all, ◌⊎◌, ltb→lt, length-drop, length-take, take-append-drop, zero,
}
use crossnook.Md5.{Context, State, transform, fill_buffer, whole_blocks}
use crossnook.Md5.Absorb.{Absorbed, absorb, absorb-append, absorb_short, absorb_block, absorb-nil}

-- The buffer is the 64-byte array of the struct, and never left full.
pub record IsValid (context : Context) : Type 0 where
  pub buffer_size : length context.buffer ≡ 64
  pub not_full : context.buffer_length < 64
  pub counted : context.byte_count < 2 ^ 64

-- The context with the part of the buffer that is not used forgotten.
abbrev pub absorbed : Context → Absorbed
absorbed context = record {
  chain = context.state;
  pending = take context.buffer_length context.buffer;
}

-- One block in front of the input is one call of the transform.
whole_block :
    (s : State) (input : List ℕ)
    → 64 ≤ length input
    → absorb (record { chain = s; pending = [] }) input
      ≡ absorb (record { chain = transform s (take 64 input); pending = [] }) (drop 64 input)
whole_block s input len =
    ap (absorb _) (sym (take-append-drop 64 input))
    ∙ absorb-append _ (take 64 input) (drop 64 input)
    ∙ ap (λ t. absorb t (drop 64 input))
        (absorb_block (record { chain = s; pending = [] }) (take 64 input)
          (omega (arith, length-take 64 input len)) (omega arith))

-- The block loop leaves less than a block, and absorbs what it takes.
pub whole_blocks-absorb :
    (fuel : ℕ) (s : State) (input : List ℕ)
    → length input ≤ fuel
    → (absorb (record { chain = s; pending = [] }) input
        ≡ absorb
            (record { chain = (whole_blocks fuel s input).0; pending = [] })
            (whole_blocks fuel s input).1)
      × (length (whole_blocks fuel s input).1 < 64)
unfolding whole_blocks
whole_blocks-absorb zero s [] h = (refl, omega arith)
whole_blocks-absorb zero s (x ∷ xs) h = absurd (omega arith)
whole_blocks-absorb (suc fuel) s input h = elim (Bool-cases (ltb (length input) 64)) [
  | inl short ↦ rw short (refl, ltb→lt _ _ short)
  | inr more ↦
      let len : 64 ≤ length input = ground arith in
      let ih =
        whole_blocks-absorb fuel (transform s (take 64 input)) (drop 64 input)
          (omega (arith, length-drop 64 input)) in
      rw more (whole_block s input len ∙ ih.0, ih.1)
]

-- The branch of `fill_buffer` that does not complete the block.
copied_short :
    (context : Context) (input : List ℕ)
    → IsValid context
    → context.buffer_length + length input < 64
    → absorb (absorbed context) input ≡ record {
      chain = context.state;
      pending =
          take
            (context.buffer_length + length input)
            (memcpy context.buffer context.buffer_length input (length input));
    }
copied_short context input v h =
    absorb_short (absorbed context) input
      (omega (arith, length-take context.buffer_length context.buffer (omega arith)))
    ∙ rw (
      take-memcpy context.buffer context.buffer_length input (length input) (omega arith)
          (omega arith),
      take_all (length input) input refl,
    )

-- The branch that completes the block with the first `room` bytes.
copied_block :
    (context : Context) (input : List ℕ) (room : ℕ)
    → IsValid context
    → context.buffer_length + room ≡ 64
    → room ≤ length input
    → absorb (absorbed context) input
      ≡ absorb
          (record {
            chain =
                transform context.state (memcpy context.buffer context.buffer_length input room);
            pending = [];
          })
          (drop room input)
copied_block context input room v e h =
    ap (absorb (absorbed context)) (sym (take-append-drop room input))
    ∙ absorb-append (absorbed context) (take room input) (drop room input)
    ∙ ap (λ t. absorb t (drop room input))
        (absorb_block (absorbed context) (take room input)
            (omega (
              arith,
              length-take context.buffer_length context.buffer (omega arith),
              length-take room input h,
            ))
            (omega (arith, length-take context.buffer_length context.buffer (omega arith)))
          ∙ ap (λ block. record { chain = transform context.state block; pending = [] }) whole)
  where
    whole :
        take context.buffer_length context.buffer ++ take room input
        ≡ memcpy context.buffer context.buffer_length input room
    whole =
        sym (take-memcpy context.buffer context.buffer_length input room h (omega arith))
        ∙ take_all (context.buffer_length + room) _ (
            length-memcpy context.buffer context.buffer_length input room h (omega arith)
            ∙ omega arith)

-- The three ways through `fill_buffer`.
fill_nothing :
    (context : Context) (input : List ℕ)
    → context.buffer_length ≡ 0
    → fill_buffer context input ≡ (context, input)
unfolding fill_buffer
fill_nothing context input e = rw e

fill_short :
    (context : Context) (input : List ℕ)
    → 0 < context.buffer_length
    → context.buffer_length + length input < 64
    → fill_buffer context input ≡ (
      record context {
        buffer = memcpy context.buffer context.buffer_length input (length input);
        buffer_length = context.buffer_length + length input;
      },
      [],
    )
unfolding fill_buffer
fill_short context input pos h =
    let room : sub64 64 context.buffer_length ≡ 64 - context.buffer_length = omega arith in
    rw room (ground (arith, drop_all (length input) input (omega arith)))

fill_block :
    (context : Context) (input : List ℕ) (room : ℕ)
    → 0 < context.buffer_length
    → context.buffer_length + room ≡ 64
    → room ≤ length input
    → fill_buffer context input ≡ (
      record context {
        buffer = memcpy context.buffer context.buffer_length input room;
        buffer_length = 0;
        state = transform context.state (memcpy context.buffer context.buffer_length input room);
      },
      drop room input,
    )
unfolding fill_buffer
fill_block context input room pos e h =
    let room_eq : sub64 64 context.buffer_length ≡ room = omega arith in
    let begun : (context.buffer_length == 0) ≡ false = ground arith in
    let enough : ltb (length input) room ≡ false = ground arith in
    let full : (context.buffer_length + room == 64) ≡ true = ground arith in
    rw (room_eq, begun, enough, full)

pub fill_buffer-absorb :
    (context : Context) (input : List ℕ)
    → IsValid context
    → (absorb (absorbed context) input
        ≡ absorb (absorbed (fill_buffer context input).0) (fill_buffer context input).1)
      × IsValid (fill_buffer context input).0
      × (((fill_buffer context input).0.buffer_length ≡ 0) ⊎ ((fill_buffer context input).1 ≡ []))
fill_buffer-absorb context input v = elim (Bool-cases (context.buffer_length == 0)) [
  | inl empty ↦ rw (fill_nothing context input (ground arith)) (refl, v, inl (ground arith))
  | inr begun ↦ elim (Bool-cases (ltb (context.buffer_length + length input) 64)) [
    | inl short ↦ rw (fill_short context input (ground arith) (ltb→lt _ _ short)) (
      copied_short context input v (ltb→lt _ _ short) ∙ sym (absorb-nil _),
      record {
        buffer_size =
            length-memcpy context.buffer context.buffer_length input (length input) (omega arith)
              (ground arith)
            ∙ v.buffer_size;
        not_full = ltb→lt _ _ short;
        counted = v.counted;
      },
      inr refl,
    )
    | inr full ↦
        rw
          (fill_block context input (64 - context.buffer_length) (ground arith) (omega arith)
            (ground arith))
          (
            copied_block context input (64 - context.buffer_length) v (omega arith) (ground arith),
            record {
              buffer_size =
                  length-memcpy context.buffer context.buffer_length input _ (ground arith)
                    (omega arith)
                  ∙ v.buffer_size;
              not_full = omega arith;
              counted = v.counted;
            },
            inl refl,
          )
  ]
]
