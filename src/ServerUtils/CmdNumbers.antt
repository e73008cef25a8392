-- ===== src/ServerUtils/CmdNumbers.antt =====
-- serverUtils.c: the numbers of the commands that a server can receive, which are the places of their
-- words in the table of commands.c.
use csse2310_assignment.Base.{ℕ}

pub data ServerCmdNumbers : Type 0 where
  name auth say kick list leave : ServerCmdNumbers

abbrev pub number : ServerCmdNumbers → ℕ
number name = 0
number auth = 1
number say = 2
number kick = 3
number list = 4
number leave = 5
