-- ===== src/Lib.antt =====
-- Cardboard, a scrollable tiling Wayland compositor: its tiling core, focus, pointer, animations
-- and layer surfaces, its commands and their protocol, the connections that carry it, the client
-- library and the command line.
--
-- The program. The compositor (cardboard/) keeps views (windows), each tiled in a column of a
-- workspace or floating in it. A workspace is a horizontal plane of columns; an output shows a part
-- of it, chosen by `scroll_x`.
--
-- The files.
-- - Base: library names, Boolean tests, integers, lists with positions for iterators, stores.
-- - View: cardboard/View.h, View.cpp, the queue of ViewAnimation.h and ViewAnimation.cpp, and the
--   overrides of XDGView.cpp and Xwayland.cpp. A `View*` is an address in the store `Scene.view`;
--   each wlroots call is an effect in `Scene.log`.
-- - Workspace: cardboard/Workspace.h and Workspace.cpp. `Workspace` has the record and the queries,
--   Workspace/Arrange the layout, Workspace/Edit the operations that change columns, floating views
--   and the fullscreen view, Workspace/Fit the scrolling to a view, and Workspace/Life the
--   operations as a step relation. The children prove; Workspace/Examples has the concrete inputs.
--   An operation takes the workspace and the scene and returns both, with the names of the C++.
-- - Seat: the keyboard focus of cardboard/Seat.h and Seat.cpp, and, in Seat/Views, the operations
--   of SurfaceManager.cpp that map and unmap views. A `Server` has the seat, the workspaces, the
--   views and the windows; Seat/Stack, Seat/Life and Seat/Focused prove. Seat/Grab has the grabs
--   of the pointer and the touchpad, as far as they begin and end, and Seat/Released proves.
--   `focus_view` and `focus_layer` call each other once at most, when a layer has the focus, and
--   so are unrolled. What wlroots answers is the parameter `Outside`.
-- - Cursor: what is under the cursor (SurfaceManager.cpp and the overrides of XDGView.cpp,
--   Layers.cpp and Xwayland.cpp) and `cursor_rebase` of Cursor.cpp. The cursor and the searches of
--   wlroots are the parameter `Pointing`. Cursor/Inhibit proves.
-- - ViewOperations: cardboard/ViewOperations.cpp, over a `Server`. ViewOperations/Places has the
--   abstract state, which gives each view its workspace; ViewOperations/Life the steps.
-- - Motion: what a motion of the pointer does in a grab (Seat.cpp), in Motion/Switch the change to
--   another workspace with its animations (`Seat::focus`), in Motion/Swipe the scrolling swipe
--   while it lasts, in Motion/Turn the end of a swipe, whose loop has as many rounds as fuel as
--   there are workspaces, which is enough (Motion.Turn.Round), and in Motion/Timer
--   `ViewAnimation::timer_callback`, whose loop runs as often as there are tasks at its begin.
-- - Commands: cardboard/commands/commands.h and, in Commands/Dispatch, dispatch_command.cpp. A
--   `Compositor` has the server with its grab, the configuration and the bindings; a closure is a
--   `Command`, and a command returns the compositor and the message. What leaves the model
--   (teardown, a child process, the closing of a view) is a `Request`. Commands/Input has the keys
--   and the buttons (Keyboard.cpp, Seat.cpp).
-- - Layers: cardboard/Layers.cpp and `new_layer_surface_handler` of Server.cpp: the record, the
--   box of a surface and what it reserves (Layers), `arrange_layers` (Layers/Arrange), the handlers
--   (Layers/Handlers). The other children prove.
-- - Outputs: outputs that come, change and go (OutputManager.cpp, Output.cpp).
-- - Shells: the handlers of the windows of both shells (XDGView.cpp, Xwayland.cpp).
-- - Libcutter: libcardboard/src/client.cpp, and in Libcutter/Request and Libcutter/Reply a command
--   on its way to the server and the reply on its way back.
-- - Protocol: libcardboard/include/cardboard/command_protocol.h (the commands) and, in
--   Protocol/Header, libcardboard/src/ipc.cpp, for either byte order of the machine.
-- - Ipc: cardboard/IPC.h and IPC.cpp: the handlers of a connection (Ipc), the list of clients
--   (Ipc/Clients), how a message arrives (Ipc/Stages), how a reply leaves (Ipc/Answer) and the
--   events of the server as a step relation (Ipc/Life). What
--   the system calls return is in the events; the decoding of a command and the callback that
--   runs it are the parameter `Handler`, over any state of the compositor.
-- - Cutter: cutter/parse_arguments.h, the parser of the command line, with one function per
--   parser of `parse_table`. Cutter/Tokens has the loops over `+` (with as much fuel as the text
--   has bytes, which is enough since each round takes one at least), Cutter/Print a grammar of the
--   commands. The `std` functions it calls are the parameter `Library`.
--
-- Conventions. `int` is the integers, since overflow is undefined in C++; `size_t` wraps at 2^64
-- where the code mixes it with `int`. A `float` is its bit pattern, with the processor's operations
-- as the parameter `FloatOps`. A `std::list` iterator is a position, and `end()` the length of the
-- list; a column keeps the address of its list node. `none` is an assertion that fails, a
-- reference to a destroyed column or a call that is undefined. The assertion of
-- `XwaylandView::resize` fails into the log (`assertion_failed`) where the operation has no other
-- failure, as in the layout, and the state after that is not one of the program. A loop over `mapped_and_normal_tiles()` is bounded by the number
-- of tiles, which is enough (Workspace.Tiles).
--
-- Not modelled: the cereal encoding of a command, the creation of the socket, drawing, popups, the
-- surfaces of Xwayland that are override-redirect but for the search under the cursor, the Wayland
-- and wlroots objects themselves, start-up and tear-down, and the parts of the seat and of the
-- shells that only pass events on to wlroots.
pub mod Base
pub mod View
pub mod Workspace
pub mod Cutter
pub mod Ipc
pub mod Protocol
pub mod Seat
pub mod Cursor
pub mod ViewOperations
pub mod Motion
pub mod Commands
pub mod Layers
pub mod Libcutter
pub mod Outputs
pub mod Shells
