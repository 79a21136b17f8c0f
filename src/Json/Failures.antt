-- ===== src/Json/Failures.antt =====
-- A parsing of an object that fails does not return CN_KOSYNC_OK.
use crossnook.Base.{
  ℕ, zero, suc, ◌≡◌, arith, Bool, true, false, not, ◌||◌, ◌==◌, Option, none, some, List, [], ◌∷◌,
  ltb, length, Text, text_eq, codes, if_both, if◌then◌else◌,
}
use crossnook.Sync.Types.{KosyncResult, KosyncProgress}
use crossnook.Json.Reader.{reader_space, first_is}
use crossnook.Json.Number.{Libc}
use crossnook.Json.Object.{
  ParsedObject, Step, stop, next, Parse, failed, parsed, object_init, read_into, once, skipped,
  json_max, member, member_at, at_end, after_member, members, object_body, opened, parse_object,
}

unfoldable IsStep : Step → Type 0
IsStep (stop code) = ¬ (code ≡ KosyncResult.ok)
IsStep (next object rest) = Unit

-- A failure has a code of its own.
unfoldable pub IsParse : Parse → Type 0
IsParse (failed code) = ¬ (code ≡ KosyncResult.ok)
IsParse (parsed object) = Unit

read_into-IsStep {ℓ} :
    {A : Type ℓ} (o : Option (A × List ℕ)) (put : A → KosyncProgress) (fields : ℕ)
    → IsStep (read_into o put fields)
unfolding IsStep
read_into-IsStep none put fields = λ h. absurd (ground arith)
read_into-IsStep (some (value, rest)) put fields = tt

once-IsStep :
    (o : Option ℕ) (read : ℕ → Step) → ((fields : ℕ) → IsStep (read fields)) → IsStep (once o read)
unfolding IsStep
once-IsStep none read k = λ h. absurd (ground arith)
once-IsStep (some fields) read k = k fields

skipped-IsStep : (o : Option (List ℕ)) (object : ParsedObject) → IsStep (skipped o object)
unfolding IsStep
skipped-IsStep none object = λ h. absurd (ground arith)
skipped-IsStep (some rest) object = tt

module _ (libc : Libc) (malloc : ℕ → Bool) where
  position-IsStep :
      (o : Option (Text × List ℕ)) (put : Text → KosyncProgress) (fields : ℕ)
      → IsStep (if not (malloc 65537) then stop KosyncResult.no_memory else read_into o put fields)
  unfolding IsStep
  position-IsStep o put fields =
      if_both IsStep (not (malloc 65537)) (λ h e. absurd (ground arith))
        λ h. read_into-IsStep o put fields

  member-IsStep :
      (key : Text) (object : ParsedObject) (input : List ℕ)
      → IsStep (member libc malloc key object input)
  unfolding member
  member-IsStep key object input =
      if_both IsStep (text_eq key (codes "document")) (λ h. once-IsStep _ _ (read_into-IsStep _ _))
        λ h1.
          if_both IsStep (text_eq key (codes "progress"))
            (λ h. once-IsStep _ _ (position-IsStep _ _))
            λ h2.
              if_both IsStep (text_eq key (codes "percentage"))
                (λ h. once-IsStep _ _ (read_into-IsStep _ _))
                λ h3.
                  if_both IsStep (text_eq key (codes "device"))
                    (λ h. once-IsStep _ _ (read_into-IsStep _ _))
                    λ h4.
                      if_both IsStep (text_eq key (codes "device_id"))
                        (λ h. once-IsStep _ _ (read_into-IsStep _ _))
                        λ h5.
                          if_both IsStep (text_eq key (codes "timestamp"))
                            (λ h. once-IsStep _ _ (read_into-IsStep _ _))
                            λ h6. skipped-IsStep _ object

  member_at-IsStep :
      (object : ParsedObject) (o : Option (Text × List ℕ)) → IsStep (member_at libc malloc object o)
  unfolding IsStep
  member_at-IsStep object none = λ h. absurd (ground arith)
  member_at-IsStep object (some (key, input)) = member-IsStep key object input

  at_end-IsParse :
      (rest : List ℕ) (object : ParsedObject) → IsParse (at_end libc malloc rest object)
  unfolding IsParse
  at_end-IsParse [] object = tt
  at_end-IsParse (c ∷ rest) object = λ h. absurd (ground arith)

  after_member-IsParse :
      (more : ParsedObject → List ℕ → Parse) (step : Step)
      → ((object : ParsedObject) (rest : List ℕ) → IsParse (more object rest))
      → IsStep step
      → IsParse (after_member libc malloc more step)
  unfolding IsParse IsStep
  after_member-IsParse more (stop code) k s = s
  after_member-IsParse more (next object rest) k s =
      elim (first_is b'}' (reader_space rest))
        as (λ o. IsParse (elim o [
          | some behind ↦ at_end libc malloc (reader_space behind) object
          | none ↦ more object (reader_space rest)
        ])) [
          | some behind ↦ at_end-IsParse (reader_space behind) object
          | none ↦ k object (reader_space rest)
        ]

  members-IsParse :
      (fuel : ℕ) (first : Bool) (object : ParsedObject) (input : List ℕ)
      → IsParse (members libc malloc fuel first object input)
  unfolding IsParse members
  members-IsParse zero first object input = λ h. absurd (ground arith)
  members-IsParse (suc fuel) first object [] = λ h. absurd (ground arith)
  members-IsParse (suc fuel) first object (c ∷ input) =
      after_member-IsParse (members libc malloc fuel false) _ (members-IsParse fuel false)
        (member_at-IsStep object _)

  opened-IsParse : (o : Option (List ℕ)) → IsParse (opened libc malloc o)
  unfolding IsParse object_body
  opened-IsParse none = λ h. absurd (ground arith)
  opened-IsParse (some input) =
      elim (first_is b'}' (reader_space input))
        as (λ o. IsParse (elim o [
          | some behind ↦ at_end libc malloc (reader_space behind) object_init
          | none ↦
              members libc malloc (length (reader_space input)) true object_init
                (reader_space input)
        ])) [
          | some behind ↦ at_end-IsParse (reader_space behind) object_init
          | none ↦
              members-IsParse (length (reader_space input)) true object_init (reader_space input)
        ]

  pub parse_object-IsParse : (json : List ℕ) → IsParse (parse_object libc malloc json)
  unfolding IsParse parse_object
  parse_object-IsParse json =
      if_both IsParse (length json == 0 || ltb json_max (length json))
        (λ h e. absurd (ground arith)) λ h. opened-IsParse _
