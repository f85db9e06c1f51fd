-- ===== src/App/Stopped.antt =====
-- The end of an App's life: a stopped App, and what a start makes of one that was stopped under it.
use gall_lib.Common.Dict.{Dict}
use gall_lib.App.{App}
