-- ===== src/View.antt =====
-- The windows and the scene that holds them: cardboard/View.h, View.cpp and ViewAnimation.h, with
-- the shell-specific overrides of XDGView.cpp and Xwayland.cpp.
--
-- A `View*` is an address into the store `Scene.view`. A virtual method branches on the view's
-- shell. A call into wlroots is an effect, and `Scene.log` holds the effects, newest first.
pub mod Frame
use cardboard.Base.{
  ℕ, Bool, true, false, not, ◌&&◌, Option, none, some, List, [], ◌∷◌, ◌++◌, if◌then◌else◌, ◌==◌,
}
use cardboard.Base.Int.{ℤ}
use cardboard.Base.Store.{update}

pub record Box : Type 0 where
  pub x : ℤ
  pub y : ℤ
  pub width : ℤ
  pub height : ℤ

pub data Shell : Type 0 where
  xdg xwayland : Shell

pub data ExpansionState : Type 0 where
  normal recovering fullscreen : ExpansionState

-- `View`. `is_toplevel` is the role test of `XDGView::set_activated`.
pub record View : Type 0 where
  pub shell : Shell
  pub is_toplevel : Bool
  pub geometry : Box
  pub saved_state : Option Box
  pub expansion_state : ExpansionState
  pub previous_size : ℤ × ℤ
  pub workspace_id : ℤ
  pub x : ℤ
  pub y : ℤ
  pub target_x : ℤ
  pub target_y : ℤ
  pub target_width : ℤ
  pub target_height : ℤ
  pub mapped : Bool
  pub new_view : Bool

-- The wlroots calls, each with the view that it is made for.
pub data Effect : Type 0 where
  send_leave send_enter : ℕ → ℕ → Effect
  toplevel_set_size : ℕ → ℤ → ℤ → Effect
  xwayland_configure : ℕ → ℤ → ℤ → ℤ → ℤ → Effect
  activate : ℕ → Bool → Effect
  tell_fullscreen : ℕ → Bool → Effect
  destroy_popups : ℕ → Effect
  damage_outputs : Effect
  assertion_failed : ℕ → Effect

-- What `animation_finished_callback` holds: nothing, or one of the two closures of `Seat::focus`.
pub data Callback : Type 0 where
  no_callback : Callback
  focus_arrived : ℕ → ℕ → Callback
  deactivate_previous : ℕ → Callback

-- `ViewAnimation::Task`.
pub record Task : Type 0 where
  pub view : ℕ
  pub startx : ℤ
  pub starty : ℤ
  pub targetx : ℤ
  pub targety : ℤ
  pub begin : ℕ
  pub animation_finished_callback : Callback
  pub cancelled : Bool

pub record Scene : Type 0 where
  pub view : ℕ → View
  pub tasks : List Task
  pub log : List Effect

abbrev pub modify : ℕ → (View → View) → Scene → Scene
modify v f s = record s { view = update s.view v (f (s.view v)) }

abbrev pub emit : Effect → Scene → Scene
emit e s = record s { log = e ∷ s.log }

-- `OptionalRef::operator==` on two references.
abbrev pub same_ref : Option ℕ → Option ℕ → Bool
same_ref none none = true
same_ref none (some b) = false
same_ref (some a) none = false
same_ref (some a) (some b) = a == b

abbrev pub is_normal : ExpansionState → Bool
is_normal normal = true
is_normal recovering = false
is_normal fullscreen = false

-- `View::is_mapped_and_normal`
abbrev pub is_mapped_and_normal : View → Bool
is_mapped_and_normal v = v.mapped && is_normal v.expansion_state

abbrev resize_request : ℕ → View → ℤ → ℤ → Shell → Effect
resize_request v w width height xdg = toplevel_set_size v width height
resize_request v w width height xwayland = xwayland_configure v w.x w.y width height

-- The assertion of `XwaylandView::resize`.
abbrev pub can_resize : View → Shell → Bool
can_resize w xdg = true
can_resize w xwayland = w.mapped

-- `View::resize` with its overrides. Where the assertion fails, the log has it: the program ends
-- there, and the operations whose result is an `Option` return `none`.
unfoldable pub resize : ℕ → ℤ → ℤ → Scene → Scene
resize v width height s =
    if can_resize (s.view v) (s.view v).shell
    then emit (resize_request v (s.view v) width height (s.view v).shell)
        (modify v (λ w. record w { target_width = width; target_height = height }) s)
    else emit (assertion_failed v) s

unfoldable pub try_resize : ℕ → ℤ → ℤ → Scene → Option Scene
try_resize v width height s =
    if can_resize (s.view v) (s.view v).shell then some (resize v width height s) else none

abbrev move_request : ℕ → View → ℤ → ℤ → Shell → Scene → Scene
move_request v w x y xdg s = s
move_request v w x y xwayland s =
    emit (xwayland_configure v x y w.geometry.width w.geometry.height) s

-- `View::move` with its overrides.
unfoldable pub move : ℕ → ℤ → ℤ → Scene → Scene
move v x y s =
    move_request v (s.view v) x y (s.view v).shell
      (emit damage_outputs (modify v (λ w. record w { x = x; y = y }) s))

abbrev takes_activation : View → Shell → Bool
takes_activation w xdg = w.is_toplevel
takes_activation w xwayland = true

-- `View::set_activated` with its overrides.
unfoldable pub set_activated : ℕ → Bool → Scene → Scene
set_activated v b s =
    if takes_activation (s.view v) (s.view v).shell then emit (activate v b) s else s

unfoldable pub set_fullscreen : ℕ → Bool → Scene → Scene
set_fullscreen v b s = emit (tell_fullscreen v b) s

abbrev leave_output : ℕ → Option ℕ → Option ℕ → Scene → Scene
leave_output v none new s = s
leave_output v (some o) new s = if same_ref (some o) new then s else emit (send_leave v o) s

abbrev enter_output : ℕ → Option ℕ → Scene → Scene
enter_output v none s = s
enter_output v (some o) s = emit (send_enter v o) s

-- `View::change_output`
unfoldable pub change_output : ℕ → Option ℕ → Option ℕ → Scene → Scene
change_output v old new s = enter_output v new (leave_output v old new s)

abbrev has_state : Option Box → Bool
has_state none = false
has_state (some b) = true

-- `View::save_state`; `none` where its assertion fails.
unfoldable pub save_state : ℕ → Box → Scene → Option Scene
save_state v to_save s =
    if not (has_state (s.view v).saved_state) && is_normal (s.view v).expansion_state
    then some (modify v (λ w. record w { saved_state = some to_save }) s)
    else none

abbrev recovered : ExpansionState → ExpansionState
recovered recovering = normal
recovered normal = normal
recovered fullscreen = fullscreen

-- `View::recover`
unfoldable pub recover : ℕ → Scene → Scene
recover v s = modify v (λ w. record w { expansion_state = recovered w.expansion_state }) s

-- `ViewAnimation::enqueue_task`, at the time `now`.
unfoldable pub enqueue_task : ℕ → ℕ → ℤ → ℤ → Callback → Scene → Scene
enqueue_task now v target_x target_y callback s = record s {
  tasks =
      s.tasks
      ++ record {
        view = v;
        startx = (s.view v).x;
        starty = (s.view v).y;
        targetx = target_x;
        targety = target_y;
        begin = now;
        animation_finished_callback = callback;
        cancelled = false;
      }
        ∷ [];
}

abbrev pub warp_to_target : View → View
warp_to_target w = record w { x = w.target_x; y = w.target_y }

abbrev cancel_from : ℕ → List Task → Scene → List Task × Scene
cancel_from v [] s = ([], s)
cancel_from v (t ∷ ts) s =
    let s' = if t.view == v then modify t.view warp_to_target s else s in
    let (ts', s'') = cancel_from v ts s' in
    ((if t.view == v then record t { cancelled = true } else t) ∷ ts', s'')

-- `ViewAnimation::cancel_tasks`
unfoldable pub cancel_tasks : ℕ → Scene → Scene
cancel_tasks v s = let (ts, s') = cancel_from v s.tasks s in record s' { tasks = ts }

abbrev popups_of : ℕ → Shell → Scene → Scene
popups_of v xdg s = emit (destroy_popups v) s
popups_of v xwayland s = s

-- `View::close_popups` with its overrides.
unfoldable pub close_popups : ℕ → Scene → Scene
close_popups v s = popups_of v (s.view v).shell s
