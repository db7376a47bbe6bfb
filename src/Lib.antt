-- ===== src/Lib.antt =====
-- Verification of the GEM desktop for Unix: a display server with the AES (windows, menus, forms)
-- and the VDI (drawing), client programs that call it through a protocol, and libraries for Atari
-- disk images and programs.
--
-- The library's files and the code they model:
-- - Base: helpers. Base/Int has the integers, on which a WORD is a 16-bit two's complement number
--   that `to_word` cuts to; Base/Lists has lemmas on lists over the native numbers.
-- - Rect: src/aes/aes_geometry.c, each function under its name less the prefix `aes_`. Rect/Span,
--   Rect/Subtract and Rect/Fragments prove the arithmetic of spans, the points of the results, and
--   the shape of the fragments.
-- - Window: the window records and lookups of src/aes/aes_internal.h, src/aes/aes_core.c.
-- - Visible: src/aes/window_visible.c, which cuts a window's rectangle along the windows above it by
--   `aes_subtract_rect` of Rect. `layers` lists what covers the target, `clip_layers` is the loop.
-- - Chrome: src/aes/window_geometry.c, on the windows of Window. The functions keep their names less
--   `aes_window_`; Chrome/Parts has the rectangles of the frame, Chrome/Hit the part that a point hits,
--   Chrome/Inside and Chrome/Slots the bounds and the parts of a slider. The height of the font is a parameter.
-- - Wind: the calls of src/aes/window.c, with aes_raise_window and aes_top_window of
--   src/aes/window_redraw.c, on the state of Window; Wind/Fields has wind_set and wind_get. A pointer to
--   a window is its handle, and for the desktop wind_get takes the VDI to be open. Wind/Slots and
--   Wind/Table prove the table's invariant, Wind/Top and Wind/Find what is on top, Wind/Calc and
--   Wind/Work the two rectangles of a window, Wind/Walk the list of rectangles that a program reads.
-- - Msa: lib/msa/msa.c. Msa/Rle has the track coder, Msa/Image the geometry and images, Msa/File the
--   reader and the writer of archives.
-- - Prg: lib/prg/prg.c, the loader of Atari programs. Prg/Load has the definitions, Prg/Bytes and
--   Prg/Relocate what relocation does to the bytes, Prg/Targets the long words that a stream names.
-- - Ted: src/apps/ted/document.c, the document of the text editor, and the parts of view.c and ted.c
--   that move its cursor and edit it (Ted/Keys, Ted/Follow). Ted/Valid has the invariant, Ted/Undo,
--   Ted/Chars and Ted/Lines what the operations do, Ted/Cursor and Ted/Session whole sequences of keys.
-- - Line: lib/gemctl/text_edit.c, the single-line text control. Line/Fit has the invariant of its
--   buffer, Line/Typing compares its two ways of inserting. It uses the bytes of Ted.
-- - Menu: valid_menu_tree of src/gem/protocol.c, which checks the links of a menu that a client sends,
--   and in Menu/Request the checks around it for a request MENU_BAR. Menu/Mark has what a
--   walk satisfies, Menu/Reach that it ends, Menu/Accept what an accepted request has.
-- - Fat: lib/fat12/fat12.c, the reader of FAT12 volumes, with its files in Fat/File, and Fat/Dir:
--   lib/fat12/fat12_dir.c, the walk of the directories. The disk is a function, the caller's callback a
--   parameter. Fat/Open has the addresses in a volume that opened, Fat/Slice and Fat/Entry the bytes and
--   the FAT entries that are read, Fat/Chain a file against its chain, Fat/Dir/Safe what the callback is
--   called with, Fat/Dir/Once the clusters that are read as directories.
-- - Lock: the sessions of the server, the applications and the update lock, in src/gemd/session.c,
--   with the requests of src/gemd/dispatch_aes.c and dispatch_vdi.c that change them, the deadline of
--   the lock in src/gemd/main.c, wind_update of src/aes/window.c and appl_init of src/aes/aes.c. An
--   event is a connection, a request, the end of a connection or a check of its deadlines. Lock/Apps has
--   lemmas on the table of applications, Lock/Ids the search for a free id, Lock/Hold and Lock/Member the
--   two halves of the invariant, Lock/Steps that each event keeps it, Lock/Reach what follows.
-- - Form: src/aes/form_edit.c, the keys of an editable field of a form. Form/Safe has the invariant of the
--   field's buffer, Form/Back a character that is typed and deleted.
-- - Term: src/apps/terminal/screen.c, the sliders (Term/Slider) and the lengths of lines (Term/Lines) of the
--   terminal.
--
-- Fuel: the search of appl_init takes as fuel one more than the number of slots, and Lock/Ids shows that
-- it suffices. The loop of fat12_read_bytes takes as fuel the count of bytes, of which each round reads one at
-- least; the loops over clusters have the source's own limit of 4096, and the depth of directories its
-- limit of 32. The loops of valid_menu_tree take as fuel the number of objects plus one and plus two; each round
-- marks or takes an object, and Menu/Reach shows that the fuel suffices. The loops of ted_column and ted_offset take as fuel one more than the end of the span or the
-- size of the text, and each round steps at least one byte on; Ted/Session shows that this suffices. The coder's loops take as fuel the length of the input, and each round takes one byte at
-- least. All other loops are structural.
--
-- Not modelled: the updates that the panels of the AES begin and end for themselves, all of the server's
-- other requests and its transport, setting a window's texts, painting and the redraw messages of the window calls, the
-- kind of a program by its suffix in prg.c, the editor's files, menus and mouse, the sizes of requests by
-- their opcode in protocol.c, memory allocation but for its failure in the editor, failing writes, and the
-- parts of the program named not_modelled in the list of components: input and output, drawing, client
-- stubs, and emulation.
pub mod Base
pub mod Rect
pub mod Window
pub mod Visible
pub mod Msa
pub mod Chrome
pub mod Prg
pub mod Ted
pub mod Line
pub mod Lock
pub mod Term
pub mod Form
pub mod Menu
pub mod Fat
pub mod Wind
