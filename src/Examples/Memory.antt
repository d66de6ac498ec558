-- ===== src/Examples/Memory.antt =====
-- A concrete cache for the examples: the interface `GnmiCache` can be filled.
use for_visibility.Prelude.{
  ℕ, ◌≡◌, refl, ap, ◌∙◌, true, false, ◌&&◌, Option, none, List, [], if◌then◌else◌,
}
use for_visibility.Text.{Bytes, bytes_beq, bytes_beq_refl}
use for_visibility.Gnmi.{PathElem, GnmiPath, TypedValue, Update, Notification}
use for_visibility.Gnmi.Match.{written, deleted}
use for_visibility.Cache.{GnmiCache}

-- A cache that keeps a value for each leaf and accepts every notification.
abbrev pub Leaves : Type 0
Leaves = Bytes → Bytes → List PathElem → Option TypedValue

unfoldable pub leaves_update : Notification → Leaves → Leaves
leaves_update n t target origin e =
    if bytes_beq n.prefix.target target && bytes_beq n.prefix.origin origin
    then deleted n.delete e (written n.update e (t target origin e))
    else t target origin e

pub leaves_update-here :
    (n : Notification) (t : Leaves) (e : List PathElem)
    → leaves_update n t n.prefix.target n.prefix.origin e
      ≡ deleted n.delete e (written n.update e (t n.prefix.target n.prefix.origin e))
unfolding leaves_update
leaves_update-here n t e = rw (bytes_beq_refl n.prefix.target, bytes_beq_refl n.prefix.origin) refl

pub leaves_update-elsewhere :
    (n : Notification) (t : Leaves) (origin : Bytes) (e : List PathElem)
    → bytes_beq n.prefix.origin origin ≡ false
    → leaves_update n t n.prefix.target origin e ≡ t n.prefix.target origin e
unfolding leaves_update
leaves_update-elsewhere n t origin e differs = rw (bytes_beq_refl n.prefix.target, differs) refl

pub deleted-nil :
    (dels : List GnmiPath) (e : List PathElem) (old : Option TypedValue)
    → dels ≡ []
    → deleted dels e old ≡ old
deleted-nil dels e old none_deleted = rw none_deleted (unfold deleted in refl)

pub written-nil :
    (ups : List Update) (e : List PathElem) (old : Option TypedValue)
    → ups ≡ []
    → written ups e old ≡ old
written-nil ups e old none_written = rw none_written (unfold written in refl)

abbrev pub memory : GnmiCache
memory = record {
  Tree = Leaves;
  gnmi_update = λ n t. (leaves_update n t, true);
  leaf = λ t target origin e. t target origin e;
  leaf-update =
      λ n t e no_dels no_elem fine. leaves_update-here n t e ∙ deleted-nil n.delete e _ no_dels;
  leaf-delete = λ n t e no_ups no_elem fine.
      leaves_update-here n t e ∙ ap (deleted n.delete e) (written-nil n.update e _ no_ups);
  leaf-elsewhere = λ n t origin e differs fine. leaves_update-elsewhere n t origin e differs;
}

abbrev pub no_leaves : Leaves
no_leaves target origin e = none

abbrev pub ticking : ℕ → ℕ
ticking k = k
