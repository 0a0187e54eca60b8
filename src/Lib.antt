-- ===== src/Lib.antt =====
-- Verification of the Lua extension modules that this distribution builds.
--
-- The repository bundles Lua with C modules under libs/. Modelled here are the modules whose own
-- logic stands in a few C files; each reaches Lua through the C API alone, and none calls another.
--
--   Base (Base/*): conditionals, lists, byte strings, integers, decimal numerals and binary digits.
--   LuaValue, LuaNumber: the values that cross the Lua API. A number is the bit pattern of its
--     8-byte IEEE double; a table is the sequence of pairs in which lua_next visits it.
--   Luabins (Luabins/*): libs/luabins/src. Format is saveload.h with the constants of luabins.h;
--     Save is save.c (maybe_concat, save_value, save_table as save_entries, luabins_save); Load is
--     load.c (the lbsLS_ functions in Load/State, load_value, load_table as load_entries,
--     luabins_load) with luainternals.c and .h in Load/Log2; Module is luabins.c (l_save, l_load).
--     Save/Encode is an independent description of the format; RoundTrip joins save and load.
--   PhpSerialize (PhpSerialize/*): libs/lua-phpserialize/src/lua-phpserialize.c. Keys is
--     Plookslikeinteger and Pphpserializekey, Values is Pphpserializevalue (its loop over a table
--     is serialize_entries) and Cphpserialize. Text describes the output of a value.
--   MixLua (MixLua/*): libs/mixlua/mixlua.c. State is mix_state_t, split into what stays the same
--     (Source) and what moves (Cursor); Skip is mix_bracket_open to mix_skip_comment, Reader is
--     mix_reader with a function for each of its parts and the run of lua_load over its chunks,
--     Module is mix_loadbuffer, mix_stateopt, mix_loadstring and mix_loadfile. Page describes the
--     Lua code made of a program, section by section; Page/* follows the reader through it, and
--     Loaded says what mix_loadstring makes of that.
--     Data/Quoted is read_string of libs/lua/src/llex.c, which reads what mix_reader writes.
--   BitOp (BitOp/*): libs/luabitop/bit.c. Args is barg, Words the operations on 32-bit words,
--     Module the functions that Lua calls and the self-test of luaopen_bit.
--   Random (Random/*): libs/lrandom. Twister is random.c, Module is lrandom.c; the generators that
--     Lua code holds are a list, and Stores relates the lists that sequences of calls reach.
--   Rex (Rex/*): libs/lrexlib/src, which is compiled for one library of regular expressions at a
--     time. Buffer is the string buffer of common.c with the stored replacement of gsub,
--     Buffer/Freed the list of those to free; Gsub, Find, Iterate (gmatch, split) and Plain are the
--     functions of algo.h for the POSIX library, whose expressions and calls of regexec are Engine
--     (posix/lposix.c). Pcre/Engine is pcre/lpcre.c, and Pcre/Gsub, Pcre/Gmatch and Pcre/Find are
--     algo.h as that compiles it, with ALG_USERETRY and positions from the start of the subject;
--     both use the parts in Gsub that do not search. Pcre/Split is split, Pcre/Dfa the method
--     dfa_exec, and Flags with Pcre/Flags are the tables of flags (common.c, pcre/lpcre_f.c); New
--     and Pcre/New make, print and release. Template describes a replacement by its characters,
--     Gsub/Segments what gsub does to its subject.
--
-- The Lua stack. What a function pushes above its base is the list of the strings it has pushed;
-- whether lua_checkstack finds room, lua_objlen of a table, sprintf of a double, lua_load, the file
-- system, the arithmetic of doubles in random.c and bit.c and memory from lua_newuserdata are
-- parameters; so are regcomp and regexec, whose matches lie in their string, pcre_compile,
-- pcre_study, pcre_exec, pcre_dfa_exec, setlocale and the values of the macros of PCRE, and what
-- the functions and tables given to gsub return, on a state of Lua that they may change. The load
-- of luabins asks for no room: the slots of the Lua stack and the nested calls that the C stack
-- takes are a parameter (Room), and to go beyond either is undefined.
--
-- Errors are values: an error code, a Lua error that is raised, or behaviour that C leaves
-- undefined (a read outside the memory at hand or of memory that was released, a text that does not
-- fit the 256 bytes of lua-phpserialize, a shift by 32 bits, the negation of the least int). For
-- mixlua the bytes behind the buffer are a parameter instead (behind): a zero byte and then anything
-- behind a Lua string, anything behind the memory for a file, which has no zero byte of its own.
--
-- Platform: an int has 4 bytes, a size_t, an unsigned long and a double have 8, all little-endian;
-- a lua_Integer has 8. Unsigned arithmetic wraps around where the code's may; so does the range of
-- valuei, whose overflow C leaves undefined. The stack indices of luabins_save are natural
-- numbers.
--
-- Loops. Over values and entries they are structural. The load of luabins runs on fuel of twice the
-- memory and one; the loops of mixlua run on fuel of the size of the buffer and one, read_string on
-- one more than the text; gsub runs on its subject and one, with PCRE on twice its subject and
-- three, and a loop of Lua over the iterators of gmatch and split is a number of calls; each is
-- proved to be enough, or is the length of what is read. How often lua_load calls the reader of
-- mixlua is a parameter of the run; 8 calls for each byte and 7 more are enough.
--
-- Not modelled: Lua itself but for read_string, LuaJIT and LPeg (copies of other projects'
-- libraries), the Oniguruma binding of Lrexlib, which is not built, the build, the test program,
-- the debug macros LCALL and LRET of lua-phpserialize with util.c, and the luaopen_ functions, but
-- for luaopen_bit and the table bit_funcs. Metatables and keys that are the same table object twice
-- do not occur in the values. For Lrexlib memory is always there, a subject has fewer than 2^31
-- bytes, and no call from within gsub finalises the expression that it uses.
pub mod Base
pub mod LuaValue
pub mod LuaNumber
pub mod Luabins
pub mod PhpSerialize
pub mod MixLua
pub mod BitOp
pub mod Random
pub mod Rex
