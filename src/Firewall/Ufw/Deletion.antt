-- ===== src/Firewall/Ufw/Deletion.antt =====
-- Which rules the ufw backend (internal/firewall/ufw.go) deletes.
use nft_okboy_fleet.Prelude.{
  ◌≡◌, refl, sym, ap, ◌∙◌, ◌⊎◌, inl, inr, Bool, true, false, Option, none, some, List, [], ◌∷◌,
  ◌++◌, arith, ◌==◌, nat_discrete, Bool-discrete, Bool-cases, Option-cases, ℤ, ℤ-discrete, All,
  Text, Text-discrete, has_prefix, subst,
}
use nft_okboy_fleet.Firewall.{Rule}
use nft_okboy_fleet.Firewall.Comment.{managed_prefix}
use nft_okboy_fleet.Firewall.Ufw.{
  Ufw, UfwLibrary, UfwLine, status_numbered, delete_rule, ufw_inactive, parse_ufw_status,
  parse_line, parse_lines, parse_body, split_ufw_comment, split_lines, rule_with,
}
use nft_okboy_fleet.Firewall.Ufw.Backend.{
  number_of, delete_number, delete_first, delete_locked, list_managed_lines, read_lines, with_lock,
  delete_by_handle, outcome,
}

-- A line of the listing that passes the test and has the number.
abbrev Found : (Rule → Bool) → List UfwLine → ℤ → Type 0
Found p lines n =
    (front : List UfwLine) × (line : UfwLine) × (back : List UfwLine) × (lines
      ≡ front ++ line ∷ back)
    × (line.num ≡ n)
    × (p line.r ≡ true)

num_is : (l : UfwLine) (n : ℤ) → some l.num ≡ some n → l.num ≡ n
num_is l n h = ground (arith, h)

number_of_lem :
    (p : Rule → Bool) (lines : List UfwLine) (n : ℤ) → number_of p lines ≡ some n → Found p lines n
unfolding number_of
number_of_lem p [] n h = absurd (ground (arith, h))
number_of_lem p (l ∷ lines) n h = elim (Bool-cases (p l.r)) [
  | inl e ↦ ([], l, lines, refl, num_is l n (ground (arith, h, e)), e)
  | inr e ↦
      let (front, line, back, split, num, passes) =
        number_of_lem p lines n (ground (arith, h, e)) in
      (l ∷ front, line, back, ap (λ ls. l ∷ ls) split, num, passes)
]

module _ (ufw : Ufw) (lib : UfwLibrary) (prefix : Text) where
  abbrev IsManaged : UfwLine → Type 0
  IsManaged l = has_prefix l.r.comment (managed_prefix prefix) ≡ true

  IsManaged-line : (l m : UfwLine) → some l ≡ some m → IsManaged l → IsManaged m
  IsManaged-line l m h v =
      subst IsManaged (ap {A = Option UfwLine} (λ o. elim o [ none ↦ l | some x ↦ x ]) h) v

  parse_body-IsManaged :
      (num : ℤ) (body comment : Text) (l : UfwLine)
      → parse_body lib prefix num body comment ≡ some l
      → IsManaged l
  unfolding parse_body
  parse_body-IsManaged num body comment l h =
      elim (Bool-cases (has_prefix comment (managed_prefix prefix))) [
        | inr e ↦ absurd (ground (arith, h, e))
        | inl e ↦ elim (Option-cases (lib.body_match body)) [
          | inl none_found ↦ absurd (ground (arith, h, e, none_found))
          | inr ((number, proto, ip), m) ↦ elim (Option-cases (lib.atoi number)) [
            | inl bad ↦ absurd (ground (arith, h, e, m, bad))
            | inr (port, n) ↦
                let out : parse_body lib prefix num body comment
                    ≡ some (record { num = num; r = rule_with lib prefix comment ip port proto }) =
                  rw (e, m, n) refl in
                IsManaged-line
                  (record { num = num; r = rule_with lib prefix comment ip port proto }) l
                  (sym out ∙ h) e
          ]
        ]
      ]

  parse_line-IsManaged :
      (raw : Text) (l : UfwLine) → parse_line lib prefix raw ≡ some l → IsManaged l
  unfolding parse_line
  parse_line-IsManaged raw l h = elim (Option-cases (lib.num_match raw)) [
    | inl e ↦ absurd (ground (arith, h, e))
    | inr ((number, rest), e) ↦ elim (Option-cases (lib.atoi number)) [
      | inl bad ↦ absurd (ground (arith, h, e, bad))
      | inr (num, n) ↦
          let (body, comment) = split_ufw_comment lib prefix rest in
          let out : parse_line lib prefix raw ≡ parse_body lib prefix num body comment =
            ground (arith, e, n) in
          parse_body-IsManaged num body comment l (sym out ∙ h)
    ]
  ]

  parse_lines-IsManaged : (raws : List Text) → All IsManaged (parse_lines lib prefix raws)
  unfolding parse_lines
  parse_lines-IsManaged [] = tt
  parse_lines-IsManaged (raw ∷ raws) = elim (Option-cases (parse_line lib prefix raw)) [
    | inl e ↦ rw (parse_lines, e) (parse_lines-IsManaged raws)
    | inr (l, e) ↦ rw (parse_lines, e) (parse_line-IsManaged raw l e, parse_lines-IsManaged raws)
  ]

  parse_ufw_status-IsManaged : (output : Text) → All IsManaged (parse_ufw_status lib prefix output)
  unfolding parse_ufw_status
  parse_ufw_status-IsManaged output = parse_lines-IsManaged (split_lines output)

  All-middle :
      (front : List UfwLine) (l : UfwLine) (back : List UfwLine)
      → All IsManaged (front ++ l ∷ back)
      → IsManaged l
  All-middle [] l back h = h.0
  All-middle (x ∷ front) l back h = All-middle front l back h.1

  -- The host once the lock is asked for, and the listing that the operation reads.
  abbrev pub asked : ufw.Host → ufw.Host
  asked s = (ufw.lock s).1

  abbrev pub read : ufw.Host → Option Text × ufw.Host
  read s = ufw.run status_numbered (asked s)

  -- A deletion of a managed line of the listing whose rule has the handle.
  abbrev pub Deletes : ℤ → ufw.Host → ufw.Host → Type 0
  Deletes handle s s' =
      (output : Text) × (front : List UfwLine) × (line : UfwLine) × (back : List UfwLine) × ((read
          s).0
        ≡ some output)
      × (parse_ufw_status lib prefix output ≡ front ++ line ∷ back)
      × ((line.r.handle == handle) ≡ true)
      × (has_prefix line.r.comment (managed_prefix prefix) ≡ true)
      × (s' ≡ (ufw.run (delete_rule line.num) (read s).1).1)

  pub outcome_host : (x : Option Text × ufw.Host) → (outcome ufw lib prefix x).1 ≡ x.1
  outcome_host (none, s) = refl
  outcome_host (some output, s) = refl

  abbrev with_handle : ℤ → Rule → Bool
  with_handle handle r = r.handle == handle

  silent_lem :
      (handle : ℤ) (s : ufw.Host)
      → (ufw.lock s).0 ≡ true
      → (read s).0 ≡ none
      → (delete_by_handle ufw lib prefix handle s).1 ≡ (read s).1
  unfolding delete_by_handle with_lock delete_locked list_managed_lines read_lines delete_first
  silent_lem handle s held silent = rw (held, silent) refl

  inactive_lem :
      (handle : ℤ) (s : ufw.Host) (output : Text)
      → (ufw.lock s).0 ≡ true
      → (read s).0 ≡ some output
      → ufw_inactive lib prefix output ≡ true
      → (delete_by_handle ufw lib prefix handle s).1 ≡ (read s).1
  unfolding delete_by_handle with_lock delete_locked list_managed_lines read_lines delete_first
  inactive_lem handle s output held said off = rw (held, said, off) refl

  numbered_lem :
      (handle : ℤ) (s : ufw.Host) (output : Text)
      → (ufw.lock s).0 ≡ true
      → (read s).0 ≡ some output
      → ufw_inactive lib prefix output ≡ false
      → delete_by_handle ufw lib prefix handle s
        ≡ delete_number ufw lib prefix
            (number_of (with_handle handle) (parse_ufw_status lib prefix output))
            (read s).1
  unfolding delete_by_handle with_lock delete_locked list_managed_lines read_lines delete_first
  numbered_lem handle s output held said on = rw (held, said, on) refl

  deleted_lem :
      (handle : ℤ) (s : ufw.Host) (output : Text)
      → (read s).0 ≡ some output
      → (o : Option ℤ) → number_of (with_handle handle) (parse_ufw_status lib prefix output) ≡ o
      → ((delete_number ufw lib prefix o (read s).1).1 ≡ (read s).1)
        ⊎ Deletes handle s (delete_number ufw lib prefix o (read s).1).1
  unfolding delete_number
  deleted_lem handle s output said none missed = inl refl
  deleted_lem handle s output said (some num) hit =
      let (front, line, back, split, same, passes) =
        number_of_lem (with_handle handle) (parse_ufw_status lib prefix output) num hit in
      inr (
        output,
        front,
        line,
        back,
        said,
        split,
        passes,
        All-middle front line back
            (subst (All IsManaged) split (parse_ufw_status-IsManaged output)),
        outcome_host (ufw.run (delete_rule num) (read s).1)
            ∙ ap (λ n. (ufw.run (delete_rule n) (read s).1).1) (sym same),
      )

  -- Whatever the handle and whatever ufw answers: DeleteByHandle only asks for the lock, or it has
  -- taken the lock and lists the rules, and then runs nothing or one deletion, whose number is that of a
  -- line of this listing with that handle and a comment that begins with nft-okboy's prefix.
  pub delete_by_handle-Deletes :
      (handle : ℤ) (s : ufw.Host)
      → ((delete_by_handle ufw lib prefix handle s).1 ≡ asked s)
        ⊎ (((ufw.lock s).0 ≡ true)
            × (((delete_by_handle ufw lib prefix handle s).1 ≡ (read s).1)
                ⊎ Deletes handle s (delete_by_handle ufw lib prefix handle s).1))
  unfolding delete_by_handle with_lock
  delete_by_handle-Deletes handle s = elim (Bool-cases (ufw.lock s).0) [
    | inr busy ↦ inl (rw busy refl)
    | inl held ↦ inr (
      held,
      elim (Option-cases (read s).0) [
        | inl silent ↦ inl (silent_lem handle s held silent)
        | inr (output, said) ↦ elim (Bool-cases (ufw_inactive lib prefix output)) [
          | inl off ↦ inl (inactive_lem handle s output held said off)
          | inr on ↦
              let chosen = number_of (with_handle handle) (parse_ufw_status lib prefix output) in
              subst (λ x. (x.1 ≡ (read s).1) ⊎ Deletes handle s x.1)
                (sym (numbered_lem handle s output held said on))
                (deleted_lem handle s output said chosen refl)
        ]
      ],
    )
  ]
