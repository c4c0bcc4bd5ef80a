-- ===== src/Workflow/Validator/Report/Sorting.antt =====
-- validator.go: finalize sorts the issues and loses none.
use open_machine_core.Prelude.{
  List, [], ◌∷◌, ◌≡◌, ◌≢◌, ◌↔◌, refl, Bool, true, false, if◌then◌else◌, ap,
}
use mathlib.Core.List.{Permᴰ}
use mathlib.Core.List.Permᴰ
use open_machine_core.Workflow.Validator.Report.{
  Issue, Report, insert_issue, sort_issues, issue_less, finalize, is_empty,
}

placed :
    (b : Bool) (i j : Issue) (js r : List Issue)
    → Permᴰ r (i ∷ js)
    → Permᴰ (if b then j ∷ r else i ∷ j ∷ js) (i ∷ j ∷ js)
placed true i j js r p = Permᴰ.trans (Permᴰ.cons refl p) (Permᴰ.swap refl refl)
placed false i j js r p = Permᴰ.refl _

insert_issue-Permᴰ : (i : Issue) (js : List Issue) → Permᴰ (insert_issue i js) (i ∷ js)
unfolding insert_issue
insert_issue-Permᴰ i [] = Permᴰ.refl _
insert_issue-Permᴰ i (j ∷ js) =
    placed (issue_less j i) i j js (insert_issue i js) (insert_issue-Permᴰ i js)

-- Sorting keeps every issue, as often as it was there.
pub sort_issues-Permᴰ : (is : List Issue) → Permᴰ (sort_issues is) is
unfolding sort_issues
sort_issues-Permᴰ [] = Permᴰ.nil
sort_issues-Permᴰ (i ∷ is) =
    Permᴰ.trans (insert_issue-Permᴰ i (sort_issues is)) (Permᴰ.cons refl (sort_issues-Permᴰ is))

either-ne-nil : (b : Bool) (x y : Issue) (xs ys : List Issue) → (if b then x ∷ xs else y ∷ ys) ≢ []
either-ne-nil true x y xs ys e = cc
either-ne-nil false x y xs ys e = cc

insert_issue-ne-nil : (i : Issue) (js : List Issue) → insert_issue i js ≢ []
unfolding insert_issue
insert_issue-ne-nil i [] e = cc
insert_issue-ne-nil i (j ∷ js) e = either-ne-nil (issue_less j i) j i (insert_issue i js) (j ∷ js) e

sort_issues-nil : (is : List Issue) → sort_issues is ≡ [] → is ≡ []
unfolding sort_issues
sort_issues-nil [] e = refl
sort_issues-nil (i ∷ is) e = absurd (insert_issue-ne-nil i (sort_issues is) e)

is_empty-nil : (is : List Issue) → is_empty is ≡ true → is ≡ []
is_empty-nil [] e = refl
is_empty-nil (i ∷ is) e = cc

-- A report is valid exactly when no check reported an error.
pub finalize-valid : (r : Report) → ((finalize r).valid ≡ true) ↔ (r.errors ≡ [])
unfolding finalize sort_issues
finalize-valid r = (
  λ e. sort_issues-nil r.errors (is_empty-nil (sort_issues r.errors) e),
  λ e. ap (λ (is : List Issue). is_empty (sort_issues is)) e,
)
