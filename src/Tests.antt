-- ===== src/Tests.antt =====
-- Concrete inputs for the theorems, one module for each part of the driver.
mod Queue
mod Flips
mod Timings
mod Colors
mod Screens
mod Submits
mod Presents
mod Swaps
mod Vblanks
mod Canvas
mod Scanouts
mod Pixmaps
mod Modesets
