-- ===== src/Lib.antt =====
-- A model of the X.Org driver for AMD GPUs, and what is proved of it.
--
-- The driver shows the pixmaps of the X server on CRTCs through the kernel's DRM interface. Requests
-- that complete later (page flips, waits for a vblank) get an entry in the event queue, whose number
-- goes to the kernel; the kernel's event finds the entry by that number, and its callback runs from
-- the server's main loop, or while the driver waits for a flip. The callbacks count framebuffer
-- references and tell clients the frame count (MSC) and time (UST) at which their request completed.
--
-- * DrmQueue models src/amdgpu_drm_queue.c. The four lists, the counter and the nesting levels of
--   the CRTCs are the record State; each function is a function of its name without the prefix
--   amdgpu_drm_ (amdgpu_drm_queue_handler is queue_handler). The code behind the function pointers
--   is a parameter (Driver). DrmQueue.Wait has the functions that call drmHandleEvent, whose results
--   are a list. Loops run on fuel; more fuel than there are entries is enough
--   (DrmQueue.Loops, DrmQueue.Events). DrmQueue.Stages has the abstract view of the queue: the stage
--   of each number.
-- * Framebuffer models drmmode_fb_reference_loc of src/drmmode_display.h, with the pointers that
--   hold references as slots and FatalError and an access after free as values.
-- * Pageflip models drmmode_flip_handler and drmmode_flip_abort of src/drmmode_display.c, and
--   Pageflip.Submit amdgpu_do_pageflip, on the event queue and with the flips, the framebuffers and
--   the calls of the higher level's callbacks as the rest of the driver's state. What the kernel
--   accepts, and which allocations succeed, is the record Setting. The fuel is for the wait for a
--   pending update of a scanout pixmap.
-- * Pixmap models buffer objects, src/amdgpu_bo_helper.c, and the private of a pixmap that keeps them
--   (Pixmap.Private, Pixmap.Exports: src/amdgpu_pixmap.h), with pixmaps that are created without
--   glamor (Pixmap.Create: src/amdgpu_pixmap.c). Addresses from calloc, and what GBM, libdrm and
--   glamor answer, are arguments. The build has all formats and usages of GBM that the code tests for.
-- * Scanout models the scanout pixmaps of a CRTC, src/amdgpu_kms.c: how they are drawn from the
--   screen's pixmap (Scanout), and their flips and updates on the event queue (Scanout.Callbacks,
--   Scanout.Flip). Drawing and regions are those of the X server, an interface with laws
--   (Scanout.Regions). drmmode_set_mode_major is an effect here.
-- * Modes models, of src/drmmode_display.c, the conversion of modes, the possible clones of outputs
--   (find_clones), and in Modes.Set drmmode_set_mode, the choice of TearFree
--   (drmmode_crtc_update_tear_free) and the creation of scanout pixmaps
--   (drmmode_crtc_scanout_create). A scanout pixmap is its address and size; the pixmaps that are
--   created and destroyed are a list of steps. In Modes.Major is drmmode_set_mode_major: what its
--   calls answer is the record ModeAnswers, and the calls themselves are a list.
-- * Present models the flips of src/amdgpu_present.c on top of it (Present.Flips), with the tests
--   before them (Present.Checks), drmmode_crtc_can_flip of src/drmmode_display.h, and vblank events
--   (Present.Vblank), whose attempts and polls are lists of what the kernel answers.
-- * Msc models the frame counts of src/amdgpu_dri2.c, and drmmode_do_crtc_dpms of
--   src/drmmode_display.c, which freezes them.
-- * Schedule models how src/amdgpu_dri2.c chooses the vblank or the timer for a wait or a swap.
-- * Dri2 models the buffers of src/amdgpu_dri2.c, with their exchange, and Dri2.Handlers the handlers
--   of its frame and flip events, of which flips go through amdgpu_do_pageflip.
-- * Lut models the resizing and the composition of gamma tables, and Color the colour management
--   properties of a CRTC, both of src/drmmode_display.c. A crash (a division by 0, or a read outside
--   a table) is the value none.
-- * Coverage models the choice of the CRTC for a drawable, src/amdgpu_video.c, on coordinates that
--   stay in the range of a 16-bit BoxRec, and Cursor the loading of a cursor image,
--   src/drmmode_display.c, whose loop with `goto retry` runs on fuel: two rounds are enough.
-- * Prelude has the shared names, tests on numbers and lists over the native numbers, and Tests the
--   concrete inputs at which the theorems are applied.
--
-- Unsigned C numbers are natural numbers with their wrap-around written out; a signed number is its
-- bit pattern. Log messages, and the memory of a queue entry after its callback, are left out.
-- Not modelled are the setup of the screen (src/amdgpu_kms.c, src/amdgpu_probe.c), scanout to the
-- screen of another GPU (PRIME), the rest of mode setting (the outputs, leases, the modes at start),
-- the rendering through glamor, DRI3, and the calls of libdrm, GBM and the X server, whose results
-- are parameters.
pub mod Prelude
pub mod DrmQueue
pub mod Framebuffer
pub mod Pageflip
pub mod Msc
pub mod Schedule
pub mod Lut
pub mod Color
pub mod Coverage
pub mod Cursor
pub mod Pixmap
pub mod Scanout
pub mod Modes
pub mod Present
pub mod Dri2
pub mod Tests
