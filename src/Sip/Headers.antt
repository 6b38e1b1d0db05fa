-- ===== src/Sip/Headers.antt =====
-- The header maps of parsed messages, and what they hold of the lines.
use talk_telephony_gateway_p.Base.{
  ◌≡◌, sym, ap, ◌∙◌, List, [], ◌∷◌, ◌++◌, none, some, if◌then◌else◌, arith, append-nil,
  append_assoc, Bool-cases, Option-cases, inl, inr,
}
use talk_telephony_gateway_p.Text.{Text, text_eq, is_empty, to_lower, trim_space, cut}
use talk_telephony_gateway_p.Text.Laws.{text_eq→eq}
use talk_telephony_gateway_p.Dict.{insert, lookup-insert}
use talk_telephony_gateway_p.Sip.{Headers, values, add_header, add_headers}

-- The values of the lines whose name is `name`, in their order.
unfoldable pub line_values : Text → List Text → List Text
unfolding cut to_lower trim_space text_eq
line_values name [] = []
line_values name (line ∷ lines) =
    let later = line_values name lines in
    elim (cut b':' line) [
      | none ↦ later
      | some (n, v) ↦
          if is_empty n
          then later
          else if text_eq (to_lower (trim_space n)) name
          then trim_space v ∷ later
          else later
    ]

values-insert :
    (k j : Text) (vs : List Text) (hs : Headers)
    → values (insert k vs hs) j ≡ (if text_eq k j then vs else values hs j)
unfolding values
values-insert k j vs hs = ground (arith, lookup-insert k j vs hs)

append_one : (xs : List Text) (v : Text) (ys : List Text) → (xs ++ v ∷ []) ++ ys ≡ xs ++ (v ∷ ys)
append_one xs v ys = append_assoc xs (v ∷ []) ys

-- The map of a message holds under each name, in lower case, the values of its lines in the order
-- of the message, behind those that were there before.
pub values-add_headers :
    (lines : List Text) (name : Text) (headers : Headers)
    → values (add_headers lines headers) name ≡ values headers name ++ line_values name lines
unfolding add_headers line_values add_header
values-add_headers [] name headers = sym (append-nil (values headers name))
values-add_headers (line ∷ lines) name headers = elim (Option-cases (cut b':' line)) [
  | inl e ↦ rw (e, line_values, add_header) (values-add_headers lines name headers)
  | inr ((n, v), e) ↦ elim (Bool-cases (is_empty n)) [
    | inl f ↦ rw (e, f, line_values, add_header) (values-add_headers lines name headers)
    | inr f ↦
        let key = to_lower (trim_space n) in
        let found = values headers key ++ trim_space v ∷ [] in
        let rest = values-add_headers lines name (insert key found headers) in
        let here = values-insert key name found headers in
        elim (Bool-cases (text_eq key name)) [
          | inr g ↦ rw (e, f, g, line_values, add_header) (rw (here, g) at rest)
          | inl g ↦
              rw (e, f, g, line_values, add_header)
                ((rw (here, g) at rest)
                  ∙ append_one (values headers key) (trim_space v) (line_values name lines)
                  ∙ ap (λ (k : Text). values headers k ++ (trim_space v ∷ line_values name lines))
                      (text_eq→eq key name g))
        ]
  ]
]
