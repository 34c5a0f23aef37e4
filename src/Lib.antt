-- ===== src/Lib.antt =====
-- Verification of wmbusmeters, a program that receives telegrams of wireless and wired M-Bus
-- meters, finds the frames in the bytes of a receiver, checks and strips their checksums, parses
-- the values in them and prints these for the meters that the user selected.
--
-- The parts that are modelled, from the bytes of a receiver to the values:
--   Frame models the frame finders and the trimming of the block checksums of src/wmbus.cc
--   (checkWMBusFrame, checkMBusFrame, trimCRCsFrameFormatA, trimCRCsFrameFormatB). Its children
--   FormatA, FormatB, Finder and MBus hold the proofs about each of them.
--   Im871a models the receiver of src/wmbus_im871a.cc: the finder of its frames
--   (checkIM871AFrame) and the loop over the bytes that arrive (processSerialData), which hands
--   the telegrams on. Im871a.Ending has the end of the loop, and Im871a.Frames and Im871a.Stream
--   show what becomes of frames that arrive in chunks. The handlers that get the messages are
--   outside of the model.
--   Cul models the receiver of src/wmbus_cul.cc, which prints each telegram in a line:
--   checkCULFrame, which trims the checksums by Frame, and processSerialData. Cul.Telegrams has
--   what becomes of a telegram that is printed, and Cul.Rounds the end of the loop.
--   Raw models the receivers that hand on the frames as they come (src/wmbus_rc1180.cc,
--   src/wmbus_rawtty.cc, src/mbus_rawtty.cc), with the finders of Frame: the loops of
--   processSerialData, whose end is in Raw.Ending, and the copying of hexadecimal text, in
--   Raw.Copying.
--   Amb8465 models the receiver of src/wmbus_amb8465.cc: the finder of its frames
--   (checkAMB8465Frame) and processSerialData, with the time that a part of a frame may wait in
--   the buffer. Amb8465.Ending has the end of the loop, and Amb8465.Clearing what a buffer out
--   of sync loses.
--   Rtlwmbus models src/wmbus_rtlwmbus.cc, where the telegrams are hexadecimal digits in lines
--   of text: checkRTLWMBUSFrame and processSerialData. Rtlwmbus.Ending has the end of the loop,
--   and Rtlwmbus.Second shows what becomes of a second telegram in a line.
--   Crc models crc16_EN13757 and crc16_CCITT of src/util.cc, which Frame and Dv use. Crc.Rounds
--   and Crc.Merge show that the rounds lose nothing, and Crc.Detection what follows for whole
--   blocks.
--   Telegram models the class Telegram of src/wmbus.h and src/wmbus.cc, which walks through the
--   headers of a frame. The state is a record with what is before the position and what is
--   behind it, and each part of the parser is an action on it that comes to a value, stops, or
--   reads past the end. The children Modes, DataLink, ExtendedLink, Authentication, Transport,
--   Decryption, Payload and Parsing hold one layer or step each, and compose them as parseWMBUS
--   and parseWMBUSHeader do, down to the parser of the values in Dv. Telegram.Safety counts the
--   bytes that a part needs, and Telegram.Bounds and Telegram.Headers apply it;
--   Telegram.Relation lifts a relation between two states from the steps to the whole parser,
--   and Telegram.Order applies that; Telegram.Decrypted and Telegram.Mac are about the payload
--   that is encrypted and authenticated.
--   Cipher models the decryptions of src/wmbus_utils.cc, AES_CMAC of src/aescmac.cc, and their
--   helpers in src/util.cc, for any block cipher; Cipher.Subkeys has the subkeys of RFC 4493 as
--   doubled numbers. Diehl models src/manufacturer_specificities.cc: the telegrams of one maker,
--   with other addresses and a shift register in place of AES, which Diehl.Bits has as a row of
--   bits.
--   Dv models parseDV of src/dvparser.cc, with the DIF tables of src/wmbus.cc. A round of its
--   loop is a function from the state (what is left of the data and of the format, what was
--   marked as parsed, what was gathered) to another round, the end, or a fault. Dv.Ending has
--   its termination and Dv.Conservation the order of the marked bytes.
--   Dv.Values models what the meters ask of the parsed values: findKey and the functions
--   extractDVuint8 to extractDVdate of src/dvparser.cc.
--   Vif models the tables vifScale, vifKey and vifUnit of src/wmbus.cc.
--   Match models the selection of telegrams by id of src/util.cc (isValidMatchExpression,
--   doesIdMatchExpression, doesIdsMatchExpressions, splitMatchExpressions).
--   Calendar models is_leap_year, get_days_in_month and addMonths of src/util.cc, and Periods
--   the periods of the week (isValidTimePeriod, isInsideTimePeriod). Periods.Accepted has the
--   texts that the program accepts, and Periods.Documented and Periods.Valid are about the ones
--   that its documentation has. The years of addMonths are natural numbers: the overflow of an
--   int is not modelled.
--   Hex and Text model the helpers of src/util.cc that the others use: hexadecimal text and BCD,
--   and cutting text apart.
--   Prelude holds the Boolean tests, the lists and the machine words that all of them share.
--
-- A byte is a number below 256, and a string and a byte vector are the list of their bytes.
-- Numbers are natural numbers with the wrap-around written out. A function that writes through
-- pointers gives back a tuple or a record of all that it writes. A map of strings is an
-- association list in the order of its keys. A read past the end of a vector, a failed assertion
-- and the overflow of an int have a result of their own (fault, breaks_down, undefined), so that
-- the theorems say where the program meets them. FUZZING is false, as src/util.h has it. Debug
-- output and the explanations for people are left out. In Telegram the bytes that an explanation
-- marks as parsed are kept, and a session number, which is a signed int in the source, is kept as
-- the number that its 32 bits stand for.
--
-- Loops whose end is not plain run on fuel, with a result of their own for its end, and a theorem
-- says that this result is never met: the loops of the receivers take a byte at least each round
-- and get one round more than there are bytes, the blocks of a frame take one round for 18 bytes
-- and get as many rounds as there are bytes, the loop of parseDV passes over one byte a round at
-- least and gets one round more than there are bytes, and each token of a list of rules takes one
-- byte at least.
--
-- AES is a parameter of the definitions, as the function of a block and a key and the function
-- that decrypts a chain of blocks; where a theorem needs it, a hypothesis says that a block has 16
-- bytes, or that the decryption keeps the length. The local time of a period is a parameter as
-- well.
--
-- Not modelled: AES and SHA-256, which are copies of other projects; the serial ports, processes,
-- threads and the bus manager, which are input and output; the commands that configure the
-- receivers, and what their answers are handled by; the texts that explain a telegram; the drivers
-- of the single meters and the configuration files.
pub mod Prelude
pub mod Calendar
pub mod Hex
pub mod Crc
pub mod Frame
pub mod Text
pub mod Match
pub mod Dv
pub mod Vif
pub mod Cipher
pub mod Diehl
pub mod Telegram
pub mod Periods
pub mod Im871a
pub mod Cul
pub mod Raw
pub mod Amb8465
pub mod Rtlwmbus
