-- ===== src/Approvals/Rules.antt =====
-- src/child-approvals/child-approval.util.ts and src/visitor-approvals/visitor-approval.util.ts.
-- `digest` is SHA-256 in hexadecimal, of the package node:crypto.
use face2go_server.Base.{
  ℕ, Bool, true, false, Option, none, some, [], ◌∷◌, ◌++◌, not, ◌&&◌, ◌||◌, ℤ, pos, negsuc, ltb,
  ◌==◌, if◌then◌else◌, or_else,
}
use face2go_server.Documents.{Text, is_valid_cpf, normalize_cpf}
use face2go_server.Civil.{
  Parts, Value, absent, text, format_parts, to_iso_date_string, calculate_age_on_date,
  calendar_date_in_offset,
}
use face2go_server.Approvals.Rows.{Flow, child, visitor, Client, Registration, Snapshot, codes}

abbrev pub text_eq : Text → Text → Bool
text_eq [] [] = true
text_eq (c ∷ s) (d ∷ t) = c == d && text_eq s t
text_eq _ _ = false

unfoldable pub matches_adult_cpf : (Text → Text) → Text → Option Text → Bool
matches_adult_cpf digest input none = false
matches_adult_cpf digest input (some document) =
    if not (is_valid_cpf input) || not (is_valid_cpf document)
    then false
    else text_eq (digest (normalize_cpf input)) (digest (normalize_cpf document))

-- A column of the type `date` reads as its text.
unfoldable pub date_column : Option Parts → Value
date_column none = absent
date_column (some p) = text (format_parts p)

abbrev pub natural : Option ℤ → Option ℕ
natural none = none
natural (some (negsuc n)) = none
natural (some (pos n)) = some n

abbrev pub age_of_iso : ℤ → ℕ → Option Text → Option ℕ
age_of_iso offset now none = none
age_of_iso offset now (some iso) =
    natural (calculate_age_on_date iso (calendar_date_in_offset offset now))

unfoldable pub age_for_approval : Value → ℤ → ℕ → Option ℕ
age_for_approval birth_date offset now = age_of_iso offset now (to_iso_date_string birth_date)

-- `age == null || age < 18`
abbrev pub minor_or_unknown : Option ℕ → Bool
minor_or_unknown none = true
minor_or_unknown (some age) = ltb age 18

-- `(age ?? -1) >= 18`
abbrev pub is_adult_age : Option ℕ → Bool
is_adult_age none = false
is_adult_age (some age) = not (ltb age 18)

unfoldable pub needs_child_approval : Client → Registration → ℕ → Bool
unfolding date_column age_for_approval
needs_child_approval client r now =
    if not client.enable_child_approve || not r.child_intent.required
    then false
    else minor_or_unknown
        (age_for_approval (date_column r.birth_date) client.timezone_offset_minutes now)

unfoldable pub needs_visitor_approval : Client → Registration → Bool
needs_visitor_approval client r =
    client.enable_visitor_approve && (r.visitor_intent.required && r.is_visitor)

unfoldable pub needs_approval : Flow → Client → Registration → ℕ → Bool
unfolding needs_child_approval needs_visitor_approval
needs_approval child client r now = needs_child_approval client r now
needs_approval visitor client r now = needs_visitor_approval client r

-- `ageForApproval(adult.birthDate, …) ?? -1) >= 18`
unfoldable pub is_of_age : Client → Registration → ℕ → Bool
unfolding date_column age_for_approval
is_of_age client r now =
    is_adult_age (age_for_approval (date_column r.birth_date) client.timezone_offset_minutes now)

unfoldable pub approval_snapshot : Registration → Snapshot
unfolding date_column
approval_snapshot r = record {
  registration_id = r.id;
  name = or_else r.name (codes "Cadastro");
  birth_date = to_iso_date_string (date_column r.birth_date);
  block = r.block;
  unit = r.unit;
}

abbrev pub term_version : Flow → Text
term_version child = codes "2026-10-12-v1"
term_version visitor = codes "2026-10-19-v1"

abbrev declared_place : Snapshot → Text
declared_place subject =
    codes "Declaro ser maior de idade e estar cadastrado(a) no bloco "
    ++ (or_else subject.block (codes "—")
        ++ (codes ", unidade " ++ or_else subject.unit (codes "—")))

-- Nothing computes with the wording, so that it stays shut.
unfoldable pub child_approval_term : Text → Snapshot → Text
child_approval_term client_name subject =
    declared_place subject
    ++ (codes ". Autorizo a habilitação do acesso facial de "
        ++ (subject.name
            ++ (codes " ao mercado "
                ++ (client_name
                    ++ (codes ", desde que cumpridas as demais regras de acesso. "
                        ++ (codes
                              "Assumo a responsabilidade pelos atos do menor durante o uso do mercado, "
                            ++ (codes
                                  "conforme as regras aplicáveis. Comprometo-me a orientar o menor sobre as "
                                ++ (codes
                                      "regras de utilização do mercado e a comunicar à administração qualquer uso "
                                    ++ (codes
                                          "indevido de que eu tenha conhecimento. Confirmo a veracidade das informações "
                                        ++ (codes
                                              "que prestei. Estou ciente de que minha identidade, a data e a hora do aceite "
                                            ++ (codes
                                                  "e a versão deste termo serão registradas para auditoria. Posso revogar meu "
                                                ++ (codes
                                                      "aceite pelo mesmo link de gestão desta autorização ou solicitar a revogação "
                                                    ++ codes
                                                        "ao administrador do cliente."))))))))))))

unfoldable pub visitor_approval_term : Text → Snapshot → Text
visitor_approval_term client_name subject =
    declared_place subject
    ++ (codes ". Confirmo que reconheço "
        ++ (subject.name
            ++ (codes " e autorizo a habilitação de seu acesso facial como visitante vinculado a "
                ++ (codes "esta unidade em "
                    ++ (client_name
                        ++ (codes
                              ", observadas as demais regras de acesso. Estou ciente de que este aceite, "
                            ++ (codes
                                  "minha identificação, a data e a versão do termo serão registrados para "
                                ++ (codes
                                      "auditoria. Posso revogar minha autorização pelo mesmo link de gestão ou "
                                    ++ codes
                                        "solicitar a revogação ao administrador do cliente."))))))))

unfoldable pub approval_term : Flow → Text → Snapshot → Text
unfolding child_approval_term visitor_approval_term
approval_term child client_name subject = child_approval_term client_name subject
approval_term visitor client_name subject = visitor_approval_term client_name subject
